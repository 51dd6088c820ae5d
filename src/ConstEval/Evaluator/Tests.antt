-- ===== src/ConstEval/Evaluator/Tests.antt =====
-- Runs of the evaluator on expressions, and its theorems at concrete inputs.
use djinn_lang_v.Base.{
  Bool, ◌&&◌, not, get_or, ◌==◌, [], ◌∷◌, Bytes, codes, same_bytes, ◌≡◌, refl, false, true, some,
  arith,
}
use djinn_lang_v.Base.Int.{ℤ, pos, ◌+ℤ◌, ◌-ℤ◌, ◌*ℤ◌, eqb_ℤ, ltb_ℤ, leb_ℤ}
use djinn_lang_v.Base.Maps.{lookup, insert_or_assign}
use djinn_lang_v.Lexer.Token.{TokenType}
use djinn_lang_v.Ast.Expression.{Expression, no_arguments, argument}
use djinn_lang_v.Ast.Statement.{end, statement, if_statement, return_statement, branch, no_branch}
use djinn_lang_v.ConstEval.Tests.{wholes}
use djinn_lang_v.ConstEval.Value.{Doubles, make_int, make_bool, error_value}
use djinn_lang_v.ConstEval.Fit.{OverflowMode}
use djinn_lang_v.ConstEval.Code.{default_config}
use djinn_lang_v.ConstEval.Vm.{Value, next, finished}
use djinn_lang_v.ConstEval.Vm.Arith.{add_values, div_values}
use djinn_lang_v.ConstEval.Vm.Calls.{call, load_local, return_value}
use djinn_lang_v.ConstEval.Vm.Execute.{Outcome, round}
use djinn_lang_v.ConstEval.Compiler.{done, Numerals, parsed, invalid_argument}
use djinn_lang_v.ConstEval.Compiler.Literals.{Literal, integer_literal}
use djinn_lang_v.ConstEval.Compiler.Means.{Means, Operator, Reads, count, depth}
use djinn_lang_v.ConstEval.Evaluator.{ConstEvaluator, evaluate, evaluate_function, define_function}
use djinn_lang_v.ConstEval.Evaluator.Refines.{evaluate-Means}

-- No text is a number with a fraction.
abbrev no_fractions : Numerals wholes
no_fractions = record { stod = λ _. invalid_argument; pow10 = λ x. x }

abbrev number : Bytes → Expression
number = Expression.integer_literal

abbrev forty_two : Value wholes
forty_two = make_int wholes (pos 42) 8 false

abbrev with_answer : ConstEvaluator wholes
with_answer = record {
  constants = (codes "answer", forty_two) ∷ [];
  functions = [];
  config = record default_config { max_iterations = 20; initial_heap_size = 2 };
}

-- `answer + 0x10`
abbrev sum : Expression
sum =
    Expression.binary TokenType.plus OverflowMode.wrapped (Expression.identifier (codes "answer"))
      (number (codes "0x10"))

sixteen : integer_literal wholes no_fractions (codes "0x10") ≡ Literal.int64 (pos 16)
unfolding integer_literal
sixteen = refl

sum_meaning : Means wholes no_fractions with_answer.constants sum (
    next (
      add_values wholes OverflowMode.wrapped
        (make_int wholes (pos 42) 32 true)
        (make_int wholes (pos 16) 32 true)))
unfolding lookup same_bytes
sum_meaning =
    Means.binary Operator.plus
      (Means.constant {name = codes "answer"} forty_two refl (Reads.integer refl))
      (Means.small_integer (pos 16) sixteen)

evaluate-Means_example :
    evaluate wholes no_fractions sum with_answer
    ≡ done (
        round wholes
          (next (
            add_values wholes OverflowMode.wrapped
              (make_int wholes (pos 42) 32 true)
              (make_int wholes (pos 16) 32 true)))
          Outcome.value)
unfolding lookup count depth
evaluate-Means_example =
    evaluate-Means wholes no_fractions sum _ with_answer sum_meaning (refl, tt) refl (omega arith)
      (omega arith) (omega arith)

sum_evaluated :
    evaluate wholes no_fractions sum with_answer
    ≡ done (Outcome.value (make_int wholes (pos 58) 32 true))
unfolding evaluate lookup insert_or_assign same_bytes add_values
sum_evaluated = refl

-- `false && 1 / 0`
abbrev guarded : Expression
guarded =
    Expression.binary TokenType.slash OverflowMode.wrapped (number (codes "1")) (number (codes "0"))

one : integer_literal wholes no_fractions (codes "1") ≡ Literal.int64 (pos 1)
unfolding integer_literal
one = refl

zero : integer_literal wholes no_fractions (codes "0") ≡ Literal.int64 (pos 0)
unfolding integer_literal
zero = refl

guarded_meaning :
    Means wholes no_fractions with_answer.constants guarded (finished (error_value wholes))
unfolding div_values
guarded_meaning =
    Means.binary Operator.slash (Means.small_integer (pos 1) one) (Means.small_integer (pos 0) zero)

-- Both operands are evaluated, so the division by zero ends the evaluation.
guarded_evaluated :
    evaluate wholes no_fractions
      (Expression.binary TokenType.and_and OverflowMode.wrapped
        (Expression.boolean_literal (codes "false"))
        guarded)
      with_answer
    ≡ done (Outcome.value (error_value wholes))
unfolding lookup count depth
guarded_evaluated =
    evaluate-Means wholes no_fractions _ _ with_answer
      (Means.binary Operator.and_and (Means.boolean {value = codes "false"}) guarded_meaning)
      (refl, tt) refl (omega arith) (omega arith) (omega arith)

-- Numbers with a sign of their own, so that there are two zeros, which compare equal.
abbrev signed : Doubles
signed = record {
  Double = Bool × ℤ;
  of_int = λ z. (false, z);
  to_int = λ a. a.1;
  add = λ a b. (a.0 && b.0, a.1 +ℤ b.1);
  sub = λ a b. (a.0 && b.0, a.1 -ℤ b.1);
  mul = λ a b. (a.0, a.1 *ℤ b.1);
  div = λ a b. a;
  neg = λ a. (not a.0, pos 0 -ℤ a.1);
  eq = λ a b. eqb_ℤ a.1 b.1;
  lt = λ a b. ltb_ℤ a.1 b.1;
  le = λ a b. leb_ℤ a.1 b.1;
}

abbrev zeros : Numerals signed
zeros = record { stod = λ text. parsed (get_or text 0 0 == b'-', pos 0); pow10 = λ x. x }

-- `pick(b) { if (b) { return 10; } return 20; }`, called on a true and on a false value.
abbrev with_pick : ConstEvaluator wholes
with_pick =
    define_function wholes (codes "pick") (codes "b" ∷ [])
      (statement
        (if_statement (Expression.identifier (codes "b"))
          (branch (statement (return_statement (some (number (codes "10")))) end)) no_branch)
        (statement (return_statement (some (number (codes "20")))) end))
      with_answer

pick_of_true :
    evaluate_function wholes no_fractions (codes "pick") (make_bool wholes true ∷ []) with_pick
    ≡ done (Outcome.value (make_int wholes (pos 10) 32 true))
unfolding evaluate_function lookup define_function insert_or_assign same_bytes call load_local
    return_value
pick_of_true = refl

pick_of_false :
    evaluate wholes no_fractions
      (Expression.function_call
        (codes "pick")
        (argument (Expression.boolean_literal (codes "false")) no_arguments))
      with_pick
    ≡ done (Outcome.value (make_int wholes (pos 20) 32 true))
unfolding evaluate lookup define_function insert_or_assign same_bytes call load_local return_value
pick_of_false = refl
