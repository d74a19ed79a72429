-- ===== src/Compiler/Order.antt =====
-- Operands: `p_action` of ocaml/backends/cpp.ml prints the first operand of an operator as an
-- expression, or stores it into the variable that the result goes to, before it prints the statements
-- of the second. An operand is evaluated in its place only if the second does not interfere.
use koika.Prelude.{ℕ, ◌==◌, Bool, true, false, not, ◌&&◌, ◌||◌}
use koika.Compiler.Action.{Action}

unfoldable pub assigns : Action → Bool
assigns Action.fail = false
assigns (Action.var x) = false
assigns (Action.const v) = false
assigns (Action.assign x a) = true
assigns (Action.seq a b) = assigns a || assigns b
assigns (Action.bind x a b) = assigns a || assigns b
assigns (Action.cond c a b) = assigns c || assigns a || assigns b
assigns (Action.read0 r) = false
assigns (Action.read1 r) = false
assigns (Action.write0 r a) = assigns a
assigns (Action.write1 r a) = assigns a
assigns (Action.unop f a) = assigns a
assigns (Action.binop f a b) = assigns a || assigns b

module _ (x : ℕ) where
  unfoldable pub mentions : Action → Bool
  mentions Action.fail = false
  mentions (Action.var y) = x == y
  mentions (Action.const v) = false
  mentions (Action.assign y a) = x == y || mentions a
  mentions (Action.seq a b) = mentions a || mentions b
  mentions (Action.bind y a b) = mentions a || mentions b
  mentions (Action.cond c a b) = mentions c || mentions a || mentions b
  mentions (Action.read0 r) = false
  mentions (Action.read1 r) = false
  mentions (Action.write0 r a) = mentions a
  mentions (Action.write1 r a) = mentions a
  mentions (Action.unop f a) = mentions a
  mentions (Action.binop f a b) = mentions a || mentions b

  -- Some second operand mentions the variable.
  unfoldable pub second_mentions : Action → Bool
  second_mentions Action.fail = false
  second_mentions (Action.var y) = false
  second_mentions (Action.const v) = false
  second_mentions (Action.assign y a) = second_mentions a
  second_mentions (Action.seq a b) = second_mentions a || second_mentions b
  second_mentions (Action.bind y a b) = second_mentions a || second_mentions b
  second_mentions (Action.cond c a b) = second_mentions c || second_mentions a || second_mentions b
  second_mentions (Action.read0 r) = false
  second_mentions (Action.read1 r) = false
  second_mentions (Action.write0 r a) = second_mentions a
  second_mentions (Action.write1 r a) = second_mentions a
  second_mentions (Action.unop f a) = second_mentions a
  second_mentions (Action.binop f a b) = second_mentions a || mentions b

-- No second operand assigns a variable or, in an assignment, mentions the one that is assigned.
unfoldable pub ordered : Action → Bool
ordered Action.fail = true
ordered (Action.var x) = true
ordered (Action.const v) = true
ordered (Action.assign x a) = ordered a && not (second_mentions x a)
ordered (Action.seq a b) = ordered a && ordered b
ordered (Action.bind x a b) = ordered a && ordered b
ordered (Action.cond c a b) = ordered c && ordered a && ordered b
ordered (Action.read0 r) = true
ordered (Action.read1 r) = true
ordered (Action.write0 r a) = ordered a
ordered (Action.write1 r a) = ordered a
ordered (Action.unop f a) = ordered a
ordered (Action.binop f a b) = ordered a && ordered b && not (assigns b)
