-- ===== src/Overrides/Round.antt =====
-- One round of the loop over the groups, with the rounds behind it as an argument.
use mathlib.Core.List.{append_assoc, map-append, perm_append_comm, perm-append_left_iff}
use mathlib.Core.List.Perm
use native.Mathlib.Nat.{le_refl}
use mimir_operator.Base.{
  ℕ, suc, ◌+◌, ◌-◌, ◌<◌, ◌≡◌, refl, ◌∙◌, arith, Bool, true, false, List, [], ◌∷◌, ◌++◌, map, Option,
  some, length, length-append,
}
use mimir_operator.Base.Dict.{Dict}
use mimir_operator.Prometheus.{Rule, RuleGroup}
use mimir_operator.Overrides.{
  Override, GroupHeader, Item, update, groups_of, rules_loop, groups_loop,
}
use mimir_operator.Overrides.Disabled.{rules_fit}
use mimir_operator.Overrides.Memory.{GroupSwept, group_fit}
use mimir_operator.Overrides.Groups.{any_named, is_emptied, groups_fit, kept_groups, emptied_plain}
use mimir_operator.Overrides.Places.{
  header_of, place, Own, Own-next, Own-head, Apart, groups_of-update, header_here, group_here,
}
use mimir_operator.Overrides.Removed.{
  contents_dropped, after, SweptGroups, Swept-from, Swept-end, groups_fit_step, fit→plain,
  loop_behind,
}
use mimir_operator.Overrides.Loop.{
  kept_groups_stays, kept_groups_goes, kept_groups-plain, after_plain, left, round_stays,
  shown_stays, round_last, round_moves, shown_moves, Apart-stays, Apart-moves,
}

module _ (overrides : Dict Override) where
  swept_stays :
      (fit : Bool) (shown : List RuleGroup) (x : RuleGroup) (mid : List RuleGroup)
      (result : Option Item)
      → is_emptied overrides x ≡ false
      → SweptGroups overrides fit (shown ++ (after overrides x ∷ [])) mid result
      → SweptGroups overrides fit shown (x ∷ mid) result
  swept_stays fit shown x mid result e =
      Swept-from overrides fit shown (x ∷ mid) (shown ++ (after overrides x ∷ [])) mid result
        (λ _. rw (kept_groups_stays overrides x mid e, append_assoc) (Perm.refl _))

  swept_moves :
      (fit : Bool) (shown : List RuleGroup) (x : RuleGroup) (mid : List RuleGroup) (y : RuleGroup)
      (result : Option Item)
      → is_emptied overrides x ≡ true
      → (fit ≡ true → any_named overrides y.rules ≡ false)
      → SweptGroups overrides fit (shown ++ (y ∷ [])) mid result
      → SweptGroups overrides fit shown (x ∷ (mid ++ (y ∷ []))) result
  swept_moves fit shown x mid y result e plain =
      Swept-from overrides fit shown (x ∷ (mid ++ (y ∷ []))) (shown ++ (y ∷ [])) mid result (λ t.
        let p = plain t in
        rw
          (
            kept_groups_goes overrides x (mid ++ (y ∷ [])) e,
            kept_groups-plain overrides mid y (emptied_plain overrides y p),
            map-append,
            append_assoc,
          )
          (rw (after_plain overrides y p) (
            (perm-append_left_iff shown).1
              (perm_append_comm (y ∷ []) (map (after overrides) (kept_groups overrides mid))))))

  -- One round, with the rounds behind it as an argument.
  module _ (n g : ℕ) (arrays : ℕ → List Rule) (front : List GroupHeader) (x : RuleGroup) (c : ℕ)
      (eg : g ≡ length front) (lt : g < c) (apart : Apart g c front)
      (fit : rules_fit overrides (length x.rules) x.rules ≡ true) where
    swept :
        (xs : List RuleGroup)
        → Own g arrays (x ∷ xs)
        → GroupSwept overrides (place g arrays front (x ∷ xs) c) g (header_of g x) x.rules
    swept xs own =
        group_fit overrides (place g arrays front (x ∷ xs) c) g (header_of g x) x.rules
          (group_here g arrays front x xs c eg lt) (Own-head g arrays x xs own) refl fit

    groups_loop_round :
        (xs : List RuleGroup) (item : Item)
        → rules_loop overrides g g (length x.rules) 0 (place g arrays front (x ∷ xs) c) ≡ some item
        → groups_loop overrides (suc n) g (place g arrays front (x ∷ xs) c)
          ≡ groups_loop overrides n (suc g) item
    unfolding groups_loop
    groups_loop_round xs item e = rw (header_here g arrays front x xs c eg, e)

    pub round_stay :
        (mid dead : List RuleGroup) (own : Own g arrays (x ∷ (mid ++ dead)))
        → is_emptied overrides x ≡ false
        → ((arrays' : ℕ → List Rule) (front' : List GroupHeader)
            → suc g ≡ length front'
            → Own (suc g) arrays' (mid ++ dead)
            → Apart (suc g) c front'
            → SweptGroups overrides
                (groups_fit overrides (length mid) (mid ++ dead))
                (groups_of arrays' front')
                mid
                (groups_loop overrides n (suc g) (place (suc g) arrays' front' (mid ++ dead) c)))
        → SweptGroups overrides
            (groups_fit overrides (suc (length mid)) (x ∷ (mid ++ dead)))
            (groups_of arrays front)
            (x ∷ mid)
            (groups_loop overrides (suc n) g (place g arrays front (x ∷ (mid ++ dead)) c))
    round_stay mid dead own stays next =
        let s = swept (mid ++ dead) own in
        let l = left overrides g arrays front x (mid ++ dead) c eg lt own apart s in
        let run = round_stays overrides g arrays front x (mid ++ dead) c eg lt own apart s stays in
        let shown = shown_stays overrides g arrays front x (mid ++ dead) c eg lt own apart s in
        rw
          (
            groups_fit_step overrides (length mid) x (mid ++ dead) fit,
            stays,
            groups_loop_round (mid ++ dead) _ run,
          )
          (swept_stays _ _ x mid _ stays (
            rw (← shown) (
              next (update arrays g s.rules) (front ++ (l ∷ []))
                (omega (arith, length-append front (l ∷ [])))
                (Own-next g arrays x (mid ++ dead) s.rules own)
                (Apart-stays overrides g arrays front x (mid ++ dead) c eg lt own apart s c
                  (le_refl c)))))

    pub round_end :
        (dead : List RuleGroup) (own : Own g arrays (x ∷ dead))
        → is_emptied overrides x ≡ true
        → n ≡ length dead
        → c ≡ suc g
        → SweptGroups overrides
            (groups_fit overrides 1 (x ∷ dead))
            (groups_of arrays front)
            (x ∷ [])
            (groups_loop overrides (suc n) g (place g arrays front (x ∷ dead) c))
    unfolding swept
    round_end dead own goes en ec =
        let s = swept dead own in
        let l = left overrides g arrays front x dead c eg lt own apart s in
        let run = round_last overrides g arrays front x dead c eg lt own apart s goes ec in
        rw (groups_fit_step overrides 0 x dead fit, goes, groups_loop_round dead _ run)
          (Swept-from overrides _ (groups_of arrays front) (x ∷ []) (groups_of arrays front) [] _
            (λ _. rw (kept_groups_goes overrides x [] goes) (Perm.refl _))
            (Swept-end overrides _ (groups_of arrays front)
              (place (suc g) (update arrays g s.rules) (front ++ (l ∷ [])) dead (c - 1)) _
              (contents_dropped (suc g) (update arrays g s.rules) front l dead (c - 1) (omega arith)
                ∙ groups_of-update arrays g c s.rules front lt apart)
              (rw en (
                loop_behind overrides dead (suc g) (update arrays g s.rules) (front ++ (l ∷ []))
                  (c - 1) (omega (arith, length-append front (l ∷ []))) (omega arith)
                  (Own-next g arrays x dead s.rules own)))))

    pub round_move :
        (mid : List RuleGroup) (y : RuleGroup) (dead : List RuleGroup)
        (own : Own g arrays (x ∷ (mid ++ (y ∷ dead))))
        → is_emptied overrides x ≡ true
        → c ≡ suc (suc (g + length mid))
        → ((arrays' : ℕ → List Rule) (front' : List GroupHeader)
            → suc g ≡ length front'
            → Own (suc g) arrays' (mid ++ (y ∷ dead))
            → Apart (suc g) (c - 1) front'
            → SweptGroups overrides
                (groups_fit overrides (length mid) (mid ++ (y ∷ dead)))
                (groups_of arrays' front')
                mid
                (groups_loop overrides n
                  (suc g)
                  (place (suc g) arrays' front' (mid ++ (y ∷ dead)) (c - 1))))
        → SweptGroups overrides
            (groups_fit overrides (suc (suc (length mid))) (x ∷ (mid ++ (y ∷ dead))))
            (groups_of arrays front)
            (x ∷ (mid ++ (y ∷ [])))
            (groups_loop overrides (suc n) g (place g arrays front (x ∷ (mid ++ (y ∷ dead))) c))
    round_move mid y dead own goes ec next =
        let xs = mid ++ (y ∷ dead) in
        let s = swept xs own in
        let k = suc (g + length mid) in
        let run =
          round_moves overrides g arrays front x xs c eg lt own apart s mid y dead k refl ec refl
            goes in
        let shown =
          shown_moves overrides g arrays front x xs c eg lt own apart s mid y dead k refl ec refl in
        let one_less : suc (length mid) - 1 ≡ length mid = omega arith in
        rw
          (
            groups_fit_step overrides (suc (length mid)) x xs fit,
            goes,
            one_less,
            groups_loop_round xs _ run,
          )
          (swept_moves _ _ x mid y _ goes
            (fit→plain overrides (length mid) mid y dead (le_refl (length mid)))
            (rw (← shown) (
              next (update arrays g s.rules) (front ++ (header_of k y ∷ []))
                (omega (arith, length-append front (header_of k y ∷ [])))
                (Own-next g arrays x xs s.rules own)
                (Apart-moves overrides g arrays front x xs c eg lt own apart s mid y dead k refl ec
                  refl))))
