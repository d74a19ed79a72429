-- ===== src/Compiler/Annotated.antt =====
-- Where the histories that the code of a rule carries come from: the translation `code_of` of its
-- action.
use mathlib.Core.Path.{fun_ext}
use koika.Prelude.{
  ℕ, ◌==◌, Bool, true, false, not, ◌&&◌, ◌||◌, List, [], ◌∷◌, ◌≡◌, refl, ap, if◌then◌else◌,
}
use koika.Registers.Rule.{Rule, update}
use koika.Registers.Dynamic.Outside.{mem}
use koika.Compiler.History.{
  may, RegisterKind, update_read0, update_read1, update_write0, update_write1,
}
use koika.Compiler.Action.{
  Action, Env, Histories, annotate, update_map, rule_of, meaning, empty_history_map, rule_histories,
}
use koika.Compiler.Code.{Code, code_of, rule_code, is_value, may_fail_without_revert}
use koika.Compiler.Below.{
  Below-refl, BelowMap, BelowMap-trans, read0-BelowMap, read1-BelowMap, write0-BelowMap,
  write1-BelowMap, join_l-BelowMap, join_r-BelowMap,
}

-- The rule without its histories.
unfoldable pub erase : Code → Rule
erase Code.commit = Rule.commit
erase (Code.fail h) = Rule.fail
erase (Code.rd0 h r k) = Rule.rd0 r (λ v. erase (k v))
erase (Code.rd1 h r k) = Rule.rd1 r (λ v. erase (k v))
erase (Code.wr0 h r v k) = Rule.wr0 r v (erase k)
erase (Code.wr1 h r v k) = Rule.wr1 r v (erase k)

erase-if :
    (b : Bool) (x y : Code) {p q : Rule}
    → erase x ≡ p
    → erase y ≡ q
    → erase (if b then x else y) ≡ (if b then p else q)
erase-if true x y e f = e
erase-if false x y e f = f

-- The code of an action, in front of code that means `k'`, means the action in front of `k'`.
erase-code_of :
    (a : Action) (h : Histories) (env : Env) (k : ℕ → Env → Code) (k' : ℕ → Env → Rule)
    → ((v : ℕ) (env' : Env) → erase (k v env') ≡ k' v env')
    → erase (code_of a h env k) ≡ rule_of a env k'
unfolding erase code_of rule_of
erase-code_of Action.fail h env k k' e = refl
erase-code_of (Action.var x) h env k k' e = e (env x) env
erase-code_of (Action.const v) h env k k' e = e v env
erase-code_of (Action.assign x a) h env k k' e =
    erase-code_of a h env _ _ (λ v env'. e 0 (update env' x v))
erase-code_of (Action.seq a b) h env k k' e =
    erase-code_of a h env _ _ (λ v env'. erase-code_of b (annotate h a) env' _ _ e)
erase-code_of (Action.bind x a b) h env k k' e = erase-code_of a h env _ _ (λ v env'.
    erase-code_of b (annotate h a) (update env' x v) _ _ (λ w env''. e w (update env'' x (env' x))))
erase-code_of (Action.cond c a b) h env k k' e = erase-code_of c h env _ _ (λ v env'.
    erase-if (v == 0) (code_of b (annotate h c) env' k) (code_of a (annotate h c) env' k)
      (erase-code_of b (annotate h c) env' _ _ e) (erase-code_of a (annotate h c) env' _ _ e))
erase-code_of (Action.read0 r) h env k k' e = ap (Rule.rd0 r) (fun_ext (λ v. e v env))
erase-code_of (Action.read1 r) h env k k' e = ap (Rule.rd1 r) (fun_ext (λ v. e v env))
erase-code_of (Action.write0 r a) h env k k' e =
    erase-code_of a h env _ _ (λ v env'. ap (Rule.wr0 r v) (e 0 env'))
erase-code_of (Action.write1 r a) h env k k' e =
    erase-code_of a h env _ _ (λ v env'. ap (Rule.wr1 r v) (e 0 env'))
erase-code_of (Action.unop f a) h env k k' e = erase-code_of a h env _ _ (λ v env'. e (f v) env')
erase-code_of (Action.binop f a b) h env k k' e =
    erase-code_of a h env _ _
      (λ v env'. erase-code_of b (annotate h a) env' _ _ (λ w env''. e (f v w) env''))

pub erase-rule_code : (a : Action) → erase (rule_code a) ≡ meaning a
unfolding erase
erase-rule_code a = erase-code_of a empty_history_map (λ x. 0) _ _ (λ v env. refl)

pub both : (a b : Bool) → (a && b) ≡ true → (a ≡ true) × (b ≡ true)
both true b e = (refl, e)
both false b e = cc

pub not-true : (b : Bool) → not b ≡ true → b ≡ false
not-true true e = cc
not-true false e = refl

module _ (registers : List ℕ) where
  -- An action uses only the registers of the design.
  unfoldable pub declared : Action → Bool
  declared Action.fail = true
  declared (Action.var x) = true
  declared (Action.const v) = true
  declared (Action.assign x a) = declared a
  declared (Action.seq a b) = declared a && declared b
  declared (Action.bind x a b) = declared a && declared b
  declared (Action.cond c a b) = declared c && declared a && declared b
  declared (Action.read0 r) = mem r registers
  declared (Action.read1 r) = mem r registers
  declared (Action.write0 r a) = mem r registers && declared a
  declared (Action.write1 r a) = mem r registers && declared a
  declared (Action.unop f a) = declared a
  declared (Action.binop f a b) = declared a && declared b

-- No register that has a read-write set may have been read at port 1.
unfoldable pub no_marks : List ℕ → (ℕ → RegisterKind) → Histories → Bool
no_marks [] kinds h = true
no_marks (r ∷ rs) kinds h = (is_value (kinds r) || not (may (h r).hr1)) && no_marks rs kinds h

module _ (registers : List ℕ) (kinds : ℕ → RegisterKind) where
  -- What the compiler does not take care of: an action reads no register at port 1 after it may have
  -- written it at port 1, and where it fails without a reset it has marked no set.
  unfoldable pub accepted : Action → Histories → Bool
  accepted Action.fail h = not (may_fail_without_revert registers h) || no_marks registers kinds h
  accepted (Action.var x) h = true
  accepted (Action.const v) h = true
  accepted (Action.assign x a) h = accepted a h
  accepted (Action.seq a b) h = accepted a h && accepted b (annotate h a)
  accepted (Action.bind x a b) h = accepted a h && accepted b (annotate h a)
  accepted (Action.cond c a b) h =
      accepted c h && accepted a (annotate h c) && accepted b (annotate h c)
  accepted (Action.read0 r) h = true
  accepted (Action.read1 r) h = not (may (h r).hw1)
  accepted (Action.write0 r a) h = accepted a h
  accepted (Action.write1 r a) h = accepted a h
  accepted (Action.unop f a) h = accepted a h
  accepted (Action.binop f a b) h = accepted a h && accepted b (annotate h a)

  -- The histories in the code of a rule cover those of the way to their places, from `h` on, and the
  -- rule's histories `final` cover them.
  abbrev pub Annotated : Histories → Histories → Code → Type 0
  Annotated final h Code.commit = BelowMap h final
  Annotated final h (Code.fail h') =
      BelowMap h h'
      × BelowMap h' final
      × ((not (may_fail_without_revert registers h') || no_marks registers kinds h') ≡ true)
  Annotated final h (Code.rd0 h' r k) =
      BelowMap h h' × ((v : ℕ) → Annotated final (update_map h' r update_read0) (k v))
  Annotated final h (Code.rd1 h' r k) =
      BelowMap h h'
      × (may (h' r).hw1 ≡ false)
      × ((v : ℕ) → Annotated final (update_map h' r update_read1) (k v))
  Annotated final h (Code.wr0 h' r v k) =
      BelowMap h h' × Annotated final (update_map h' r update_write0) k
  Annotated final h (Code.wr1 h' r v k) =
      BelowMap h h' × Annotated final (update_map h' r update_write1) k

  module _ (final : Histories) where
    pub Annotated→BelowMap : (c : Code) (h : Histories) → Annotated final h c → BelowMap h final
    Annotated→BelowMap Code.commit h p = p
    Annotated→BelowMap (Code.fail h') h p = BelowMap-trans p.0 p.1
    Annotated→BelowMap (Code.rd0 h' r k) h p =
        BelowMap-trans p.0
          (BelowMap-trans (read0-BelowMap h' r) (Annotated→BelowMap (k 0) _ (p.1 0)))
    Annotated→BelowMap (Code.rd1 h' r k) h p =
        BelowMap-trans p.0
          (BelowMap-trans (read1-BelowMap h' r) (Annotated→BelowMap (k 0) _ (p.2 0)))
    Annotated→BelowMap (Code.wr0 h' r v k) h p =
        BelowMap-trans p.0 (BelowMap-trans (write0-BelowMap h' r) (Annotated→BelowMap k _ p.1))
    Annotated→BelowMap (Code.wr1 h' r v k) h p =
        BelowMap-trans p.0 (BelowMap-trans (write1-BelowMap h' r) (Annotated→BelowMap k _ p.1))

    weaken-Annotated :
        (c : Code) {h g : Histories} → BelowMap h g → Annotated final g c → Annotated final h c
    weaken-Annotated Code.commit b p = BelowMap-trans b p
    weaken-Annotated (Code.fail h') b p = (BelowMap-trans b p.0, p.1, p.2)
    weaken-Annotated (Code.rd0 h' r k) b p = (BelowMap-trans b p.0, p.1)
    weaken-Annotated (Code.rd1 h' r k) b p = (BelowMap-trans b p.0, p.1, p.2)
    weaken-Annotated (Code.wr0 h' r v k) b p = (BelowMap-trans b p.0, p.1)
    weaken-Annotated (Code.wr1 h' r v k) b p = (BelowMap-trans b p.0, p.1)

    if-Annotated :
        (b : Bool) (x y : Code) (h : Histories)
        → Annotated final h x
        → Annotated final h y
        → Annotated final h (if b then x else y)
    if-Annotated true x y h p q = p
    if-Annotated false x y h p q = q

    code_of-Annotated :
        (a : Action) (h : Histories) (env : Env) (k : ℕ → Env → Code)
        → accepted a h ≡ true
        → ((v : ℕ) (env' : Env) → Annotated final (annotate h a) (k v env'))
        → Annotated final h (code_of a h env k)
    unfolding annotate accepted code_of
    code_of-Annotated Action.fail h env k e p =
        (λ q. Below-refl (h q), Annotated→BelowMap (k 0 env) h (p 0 env), e)
    code_of-Annotated (Action.var x) h env k e p = p (env x) env
    code_of-Annotated (Action.const v) h env k e p = p v env
    code_of-Annotated (Action.assign x a) h env k e p =
        code_of-Annotated a h env _ e (λ v env'. p 0 (update env' x v))
    code_of-Annotated (Action.seq a b) h env k e p =
        let (ea, eb) = both (accepted a h) _ e in
        code_of-Annotated a h env _ ea (λ v env'. code_of-Annotated b (annotate h a) env' _ eb p)
    code_of-Annotated (Action.bind x a b) h env k e p =
        let (ea, eb) = both (accepted a h) _ e in
        code_of-Annotated a h env _ ea (λ v env'.
          code_of-Annotated b (annotate h a) (update env' x v) _ eb
            (λ w env''. p w (update env'' x (env' x))))
    code_of-Annotated (Action.cond c a b) h env k e p =
        let (eca, eb) = both _ (accepted b (annotate h c)) e in
        let (ec, ea) = both (accepted c h) _ eca in
        code_of-Annotated c h env _ ec (λ v env'.
          if-Annotated (v == 0) _ _ _
            (code_of-Annotated b (annotate h c) env' _ eb
              (λ w env''. weaken-Annotated _ (join_r-BelowMap _ _) (p w env'')))
            (code_of-Annotated a (annotate h c) env' _ ea
              (λ w env''. weaken-Annotated _ (join_l-BelowMap _ _) (p w env''))))
    code_of-Annotated (Action.read0 r) h env k e p = (λ q. Below-refl (h q), λ v. p v env)
    code_of-Annotated (Action.read1 r) h env k e p =
        (λ q. Below-refl (h q), not-true _ e, λ v. p v env)
    code_of-Annotated (Action.write0 r a) h env k e p =
        code_of-Annotated a h env _ e (λ v env'. (λ q. Below-refl (annotate h a q), p 0 env'))
    code_of-Annotated (Action.write1 r a) h env k e p =
        code_of-Annotated a h env _ e (λ v env'. (λ q. Below-refl (annotate h a q), p 0 env'))
    code_of-Annotated (Action.unop f a) h env k e p =
        code_of-Annotated a h env _ e (λ v env'. p (f v) env')
    code_of-Annotated (Action.binop f a b) h env k e p =
        let (ea, eb) = both (accepted a h) _ e in
        code_of-Annotated a h env _ ea
          (λ v env'. code_of-Annotated b (annotate h a) env' _ eb (λ w env''. p (f v w) env''))

  -- The code of an accepted rule carries histories that cover the ways through it.
  pub rule_code-Annotated :
      (a : Action)
      → accepted a empty_history_map ≡ true
      → Annotated (rule_histories a) empty_history_map (rule_code a)
  rule_code-Annotated a e =
      code_of-Annotated (rule_histories a) a empty_history_map (λ x. 0) _ e
        (λ v env q. Below-refl (rule_histories a q))
