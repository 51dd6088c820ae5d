-- ===== src/Lexer/Keywords.antt =====
-- lexer/Lexer.cpp: the table `keywords` and the lookup in it.
use djinn_lang_v.Base.{List, [], ◌∷◌, Option, none, some, Bytes, codes, same_bytes, if◌then◌else◌}
use djinn_lang_v.Lexer.Token.{TokenType}

abbrev pub keywords : List (Bytes × TokenType)
keywords =
    (codes "void", TokenType.void)
    ∷ (codes "return", TokenType.return)
    ∷ (codes "auto", TokenType.auto)
    ∷ (codes "var", TokenType.auto)
    ∷ (codes "extern", TokenType.extern)
    ∷ (codes "struct", TokenType.struct)
    ∷ (codes "namespace", TokenType.namespace)
    ∷ (codes "import", TokenType.import)
    ∷ (codes "mut", TokenType.mut)
    ∷ (codes "if", TokenType.if_kw)
    ∷ (codes "else", TokenType.else_kw)
    ∷ (codes "for", TokenType.for)
    ∷ (codes "while", TokenType.while)
    ∷ (codes "do", TokenType.do_kw)
    ∷ (codes "switch", TokenType.switch)
    ∷ (codes "case", TokenType.case)
    ∷ (codes "default", TokenType.default_kw)
    ∷ (codes "break", TokenType.break)
    ∷ (codes "continue", TokenType.continue)
    ∷ (codes "interface", TokenType.interface)
    ∷ (codes "public", TokenType.public)
    ∷ (codes "private", TokenType.private)
    ∷ (codes "static", TokenType.static)
    ∷ (codes "unsafe", TokenType.unsafe)
    ∷ (codes "this", TokenType.this)
    ∷ (codes "enum", TokenType.enum)
    ∷ (codes "union", TokenType.enum)
    ∷ (codes "new", TokenType.new)
    ∷ (codes "impl", TokenType.impl)
    ∷ (codes "where", TokenType.where_kw)
    ∷ (codes "async", TokenType.async)
    ∷ (codes "await", TokenType.await)
    ∷ (codes "yield", TokenType.yield)
    ∷ (codes "spawn", TokenType.spawn)
    ∷ (codes "in", TokenType.in_kw)
    ∷ (codes "true", TokenType.true_kw)
    ∷ (codes "false", TokenType.false_kw)
    ∷ (codes "operator", TokenType.operator)
    ∷ (codes "const", TokenType.const)
    ∷ (codes "constexpr", TokenType.const_expr)
    ∷ (codes "consteval", TokenType.const_eval)
    ∷ (codes "macro", TokenType.macro)
    ∷ (codes "is", TokenType.is)
    ∷ (codes "null", TokenType.null_kw)
    ∷ (codes "throw", TokenType.throw)
    ∷ (codes "throws", TokenType.throws)
    ∷ (codes "try", TokenType.try)
    ∷ (codes "require", TokenType.require)
    ∷ (codes "ensure", TokenType.ensure)
    ∷ []

-- `keywords.find(value)`
unfoldable pub find : Bytes → List (Bytes × TokenType) → Option TokenType
unfolding same_bytes
find w [] = none
find w ((k, t) ∷ m) = if same_bytes k w then some t else find w m
