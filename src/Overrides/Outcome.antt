-- ===== src/Overrides/Outcome.antt =====
-- The outcome of the loop over the groups of a resource: a panic, or what is left in some order.
use mathlib.Core.List.{append_assoc}
use mimir_operator.Base.{
  ℕ, zero, suc, ◌+◌, ◌-◌, ◌<◌, ◌≡◌, inl, inr, refl, ap, ◌∙◌, arith, List, [], ◌∷◌, ◌++◌, length,
  length-append, Bool-cases,
}
use mimir_operator.Base.Dict.{Dict}
use mimir_operator.Prometheus.{Rule, RuleGroup}
use mimir_operator.Overrides.{Override, GroupHeader, groups_of, groups_loop}
use mimir_operator.Overrides.Slices.{last-cases}
use mimir_operator.Overrides.Disabled.{rules_fit}
use mimir_operator.Overrides.Memory.{group_unfit}
use mimir_operator.Overrides.Groups.{is_emptied, groups_fit}
use mimir_operator.Overrides.Places.{
  header_of, place, Own, Own-head, Apart, header_here, group_here,
}
use mimir_operator.Overrides.Removed.{
  contents-place, SweptGroups, Swept-end, groups_unfit, loop_behind,
}
use mimir_operator.Overrides.Round.{round_stay, round_end, round_move}

module _ (overrides : Dict Override) where
  pub groups_swept :
      (n g : ℕ) (arrays : ℕ → List Rule) (front : List GroupHeader) (mid dead : List RuleGroup)
      (c : ℕ)
      → n ≡ length (mid ++ dead)
      → g ≡ length front
      → c ≡ g + length mid
      → Own g arrays (mid ++ dead)
      → Apart g c front
      → SweptGroups overrides
          (groups_fit overrides (length mid) (mid ++ dead))
          (groups_of arrays front)
          mid
          (groups_loop overrides n g (place g arrays front (mid ++ dead) c))
  unfolding groups_loop
  groups_swept n g arrays front [] dead c e eg ec own apart = rw e (
      Swept-end overrides _ (groups_of arrays front) (place g arrays front dead c) _
        (contents-place g arrays front dead c (omega arith))
        (loop_behind overrides dead g arrays front c eg (omega arith) own))
  groups_swept zero g arrays front (x ∷ mid) dead c e eg ec own apart = absurd (omega arith)
  groups_swept (suc n) g arrays front (x ∷ mid) dead c e eg ec own apart =
      let lt : g < c = omega arith in
      elim (Bool-cases (rules_fit overrides (length x.rules) x.rules)) [
        | inr unfit ↦
            let run =
              group_unfit overrides (place g arrays front (x ∷ (mid ++ dead)) c) g (header_of g x)
                x.rules (group_here g arrays front x (mid ++ dead) c eg lt)
                (Own-head g arrays x (mid ++ dead) own) refl unfit in
            rw (
              groups_unfit overrides (suc (length mid)) x (mid ++ dead) unfit,
              header_here g arrays front x (mid ++ dead) c eg,
              run,
            )
        | inl fit ↦ elim (Bool-cases (is_emptied overrides x)) [
          | inr stays ↦
              round_stay overrides n g arrays front x c eg lt apart fit mid dead own stays
                (λ arrays' front' eg'.
                  groups_swept n (suc g) arrays' front' mid dead c (omega arith) eg' (omega arith))
          | inl goes ↦ elim (last-cases mid) [
            | inl none_left ↦ rw none_left (
                round_end overrides n g arrays front x c eg lt apart fit dead (rw none_left at own)
                  goes (omega (arith, ap (λ xs. length {A = RuleGroup} (xs ++ dead)) none_left))
                  (omega (arith, ap (length {A = RuleGroup}) none_left)))
            | inr (mid', y, split) ↦
                let whole : mid ++ dead ≡ mid' ++ (y ∷ dead) =
                  ap (λ xs. xs ++ dead) split ∙ append_assoc mid' (y ∷ []) dead in
                let long : length mid ≡ suc (length mid') =
                  omega (arith, ap (length {A = RuleGroup}) split, length-append mid' (y ∷ [])) in
                rw (whole, long, split)
                  (round_move overrides n g arrays front x c eg lt apart fit mid' y dead
                    (rw whole at own) goes (omega arith)
                    (λ arrays' front' eg'.
                      groups_swept n (suc g) arrays' front' mid' (y ∷ dead) (c - 1)
                        (omega (arith, ap (length {A = RuleGroup}) whole)) eg' (omega arith)))
          ]
        ]
      ]
