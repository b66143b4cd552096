-- ===== src/Overrides/Swept.antt =====
-- What the loop over one group leaves of its slice: the rules that are kept, in some order.
use mathlib.Core.List.{append_assoc}
use mathlib.Core.List.Perm
use mimir_operator.Base.{
  ℕ, zero, suc, ◌+◌, ◌-◌, ◌≡◌, sym, ap, ◌∙◌, arith, true, List, [], ◌∷◌, ◌++◌, nat_eq, length,
  get_elem?, Bool-cases, inl, inr, length-append,
}
use mimir_operator.Base.Dict.{Dict}
use mimir_operator.Prometheus.{Rule}
use mimir_operator.Overrides.{Override}
use mimir_operator.Overrides.Patch.{overridden}
use mimir_operator.Overrides.Slices.{get_elem?-append, last-cases}
use mimir_operator.Overrides.Local.{local_loop}
use mimir_operator.Overrides.Disabled.{
  is_named, rules_fit, IsNamed, named_false, IsNamed-true, fit→IsPlain, loop_behind,
}
use mimir_operator.Overrides.Steps.{
  Swept, Swept-from, step_plain, step_patch, step_remove, fit_step, kept_disabled, Swept-end,
  Swept-keep, Swept-move,
}

module _ (overrides : Dict Override) where
  -- The last rule of the slice is removed: nothing moves.
  loop_last :
      (n r len : ℕ) (front : List Rule) (x : Rule) (dead : List Rule)
      → n ≡ length dead
      → r ≡ length front
      → len ≡ suc r
      → (o : Override) → IsNamed overrides x o
      → o.disable ≡ true
      → Swept overrides
          (rules_fit overrides 1 (x ∷ dead))
          front
          (x ∷ [])
          (local_loop overrides (suc n) r (front ++ (x ∷ dead)) len)
  loop_last n r len front x dead e er el o p off =
      let goes = p.disabled ∙ off in
      let at = get_elem?-append front x dead (len - 1) (omega arith) in
      let end =
        loop_behind overrides dead (front ++ (x ∷ [])) (suc r) (len - 1)
          (omega (arith, length-append front (x ∷ []))) (omega arith) in
      rw
        (
          fit_step overrides 0 x dead,
          goes,
          step_remove overrides n r len front x dead er o x p off (omega arith) at,
        )
        (Swept-from overrides _ front (x ∷ []) front [] _
          (λ _. (
            rw (kept_disabled overrides x [] goes) (Perm.refl _),
            rw (kept_disabled overrides x [] goes),
          ))
          (Swept-end overrides _ front (x ∷ dead) (len - 1) _ (omega arith)
            (rw (e, end, append_assoc))))

  -- The last rule `y` of the slice moves into the hole, and its old place is behind the slice.
  loop_move :
      (n r len : ℕ) (front : List Rule) (x : Rule) (mid : List Rule) (y : Rule) (dead : List Rule)
      → n ≡ length ((mid ++ (y ∷ [])) ++ dead)
      → r ≡ length front
      → len ≡ suc (r + length (mid ++ (y ∷ [])))
      → (o : Override) → IsNamed overrides x o
      → o.disable ≡ true
      → Swept overrides
          (rules_fit overrides (length mid) (mid ++ (y ∷ dead)))
          (front ++ (y ∷ []))
          mid
          (local_loop overrides n (suc r) ((front ++ (y ∷ [])) ++ (mid ++ (y ∷ dead))) (len - 1))
      → Swept overrides
          (rules_fit overrides (suc (length (mid ++ (y ∷ [])))) (x ∷ ((mid ++ (y ∷ [])) ++ dead)))
          front
          (x ∷ (mid ++ (y ∷ [])))
          (local_loop overrides (suc n) r (front ++ (x ∷ ((mid ++ (y ∷ [])) ++ dead))) len)
  loop_move n r len front x mid y dead e er el o p off next =
      let goes = p.disabled ∙ off in
      let long = length-append mid (y ∷ []) in
      let one_less : length (mid ++ (y ∷ [])) - 1 ≡ length mid = omega (arith, long) in
      let at =
        get_elem?-append (front ++ (x ∷ mid)) y dead (len - 1)
          (omega (arith, long, length-append front (x ∷ mid))) in
      let last =
        sym (ap (λ xs. get_elem? xs (len - 1)) (append_assoc front (x ∷ mid) (y ∷ dead))) ∙ at in
      rw
        (
          append_assoc mid (y ∷ []) dead,
          fit_step overrides (length (mid ++ (y ∷ []))) x (mid ++ (y ∷ dead)),
          goes,
          one_less,
          step_remove overrides n r len front x (mid ++ (y ∷ dead)) er o y p off (omega arith) last,
        )
        (Swept-move overrides _ front mid x y _ goes
          (fit→IsPlain overrides (length mid) mid y dead (omega arith)) next)

  -- The same for a rule that an override names, from the rounds that are left.
  loop_named :
      {n : ℕ}
      → ((front mid dead : List Rule) (r len : ℕ)
          → n ≡ length (mid ++ dead)
          → r ≡ length front
          → len ≡ r + length mid
          → Swept overrides
              (rules_fit overrides (length mid) (mid ++ dead))
              front
              mid
              (local_loop overrides n r (front ++ (mid ++ dead)) len))
      → (front : List Rule) (x : Rule) (mid dead : List Rule) (r len : ℕ) → n ≡ length (mid ++ dead)
      → r ≡ length front
      → len ≡ suc (r + length mid)
      → (o : Override) × IsNamed overrides x o
      → Swept overrides
          (rules_fit overrides (suc (length mid)) (x ∷ (mid ++ dead)))
          front
          (x ∷ mid)
          (local_loop overrides (suc n) r (front ++ (x ∷ (mid ++ dead))) len)
  loop_named {n = n} next front x mid dead r len e er el (o, p) = elim (Bool-cases o.disable) [
    | inr on ↦
        let stays = p.disabled ∙ on in
        rw
          (
            fit_step overrides (length mid) x (mid ++ dead),
            stays,
            step_patch overrides n r len front x (mid ++ dead) er o p on (omega arith),
          )
          (Swept-keep overrides _ front mid x _ stays (
            next (front ++ (overridden overrides x ∷ [])) mid dead (suc r) len e
              (omega (arith, length-append front (overridden overrides x ∷ []))) (omega arith)))
    | inl off ↦
        let goes = p.disabled ∙ off in
        elim (last-cases mid) [
          | inl none_left ↦ rw none_left (
              loop_last n r len front x dead (rw none_left at e) er
                (omega (arith, ap (length {A = Rule}) none_left)) o p off)
          | inr (mid', y, eq) ↦ rw eq (
              loop_move n r len front x mid' y dead (rw eq at e) er (rw eq at el) o p off (
                next (front ++ (y ∷ [])) mid' (y ∷ dead) (suc r) (len - 1)
                  (e
                    ∙ ap (length {A = Rule})
                        (ap (λ xs. xs ++ dead) eq ∙ append_assoc mid' (y ∷ []) dead))
                  (omega (arith, length-append front (y ∷ [])))
                  (omega (arith, ap (length {A = Rule}) eq, length-append mid' (y ∷ [])))))
        ]
  ]

  pub loop-Swept :
      (n : ℕ) (front mid dead : List Rule) (r len : ℕ)
      → n ≡ length (mid ++ dead)
      → r ≡ length front
      → len ≡ r + length mid
      → Swept overrides
          (rules_fit overrides (length mid) (mid ++ dead))
          front
          mid
          (local_loop overrides n r (front ++ (mid ++ dead)) len)
  loop-Swept n front [] dead r len e er el = rw e (
      Swept-end overrides _ front dead len _ (omega arith)
        (loop_behind overrides dead front r len er (omega arith)))
  loop-Swept zero front (x ∷ mid) dead r len e er el = absurd (omega arith)
  loop-Swept (suc n) front (x ∷ mid) dead r len e er el = elim (Bool-cases (is_named overrides x)) [
    | inr plain ↦
        let p = named_false overrides x plain in
        let next =
          loop-Swept n (front ++ (x ∷ [])) mid dead (suc r) len (omega arith)
            (omega (arith, length-append front (x ∷ []))) (omega arith) in
        rw
          (
            fit_step overrides (length mid) x (mid ++ dead),
            p.disabled,
            step_plain overrides n r len front x (mid ++ dead) er p,
          )
          (Swept-keep overrides _ front mid x _ p.disabled (rw p.same next))
    | inl named ↦
        loop_named (loop-Swept n) front x mid dead r len (omega arith) er (omega arith)
          (IsNamed-true overrides x named)
  ]
