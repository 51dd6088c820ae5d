-- ===== src/ConstEval/Evaluator/Floats.antt =====
-- evaluator/ConstEvaluator.cpp, `addFloatConstant`: two float literals that compare equal.
use djinn_lang_v.Base.{[], ◌∷◌, Bytes}
use djinn_lang_v.Lexer.Token.{TokenType}
use djinn_lang_v.Ast.Expression.{Expression}
use djinn_lang_v.ConstEval.Value.{Doubles}
use djinn_lang_v.ConstEval.Code.{OpCode, default_config}
use djinn_lang_v.ConstEval.Fit.{OverflowMode}
use djinn_lang_v.ConstEval.Compiler.{Numerals, Compiler, new_compiler, push_float}
use djinn_lang_v.ConstEval.Compiler.Expressions.{mode_code}
use djinn_lang_v.ConstEval.Evaluator.Refines.{cleared}
use djinn_lang_v.ConstEval.Evaluator.{ConstEvaluator}

abbrev pub sum_of : OverflowMode → Bytes → Bytes → Expression
sum_of mode first second =
    Expression.binary TokenType.plus mode (Expression.float_literal first)
      (Expression.float_literal second)

module _ (F : Doubles) (N : Numerals F) where
  abbrev pub fresh : ConstEvaluator F
  fresh = record { constants = []; functions = []; config = default_config }

  -- The compiler behind `first + second`.
  abbrev shared : F.Double → OverflowMode → Compiler F
  shared v mode = record (cleared F N (new_compiler F)) {
    instructions =
        record { op = OpCode.push_float; operand = 0 }
        ∷ record { op = OpCode.push_float; operand = 0 }
        ∷ record { op = OpCode.add_int; operand = mode_code mode }
        ∷ [];
    float_pool = v ∷ [];
  }
