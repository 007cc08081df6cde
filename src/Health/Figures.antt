-- ===== src/Health/Figures.antt =====
-- The figures of the two pages agree, and what the score says.
use personal_password_manage.Prelude.{
  ℕ, ◌+◌, ◌-◌, ◌≤◌, ◌≡◌, ◌↔◌, refl, ap, sym, inl, inr, Bool, true, false, none, some, List, [], ◌∷◌,
  arith, Bool-cases, Option-cases, Text, Unicode, to_lower_case, length, filter,
}
use personal_password_manage.Password.{
  strength_of_entropy, calculate_entropy, get_password_strength,
}
use personal_password_manage.Vault.{VaultItem}
use personal_password_manage.Health.{
  truthy, has_text, Analysis, no_analysis, is_weak_score, is_strong_label, is_weak_label, score_of,
  analyse_password, analyse_item, analyse_from, analyse, security_score, with_passwords, reuse_loop,
  dashboard,
}

abbrev has_weak_label : Text → Bool
has_weak_label p = is_weak_label (get_password_strength p).label

abbrev has_strong_label : Text → Bool
has_strong_label p = is_strong_label (get_password_strength p).label

weak_label_of :
    (e : ℕ)
    → is_weak_label (strength_of_entropy e).label ≡ is_weak_score (strength_of_entropy e).score
unfolding strength_of_entropy
weak_label_of e = ground arith

-- A password is weak by its label exactly when it is by its score.
weak_label : (p : Text) → has_weak_label p ≡ is_weak_score (get_password_strength p).score
unfolding get_password_strength
weak_label p = weak_label_of (calculate_entropy p)

weak_xor_strong :
    (e : ℕ)
    → is_weak_label (strength_of_entropy e).label ≡ true
    → is_strong_label (strength_of_entropy e).label ≡ false
unfolding strength_of_entropy
weak_xor_strong e h = ground arith

count_disjoint :
    (ps : List Text)
    → length (filter has_strong_label ps) + length (filter has_weak_label ps) ≤ length ps
unfolding get_password_strength
count_disjoint [] = omega arith
count_disjoint (p ∷ ps) = ground (arith, count_disjoint ps, weak_xor_strong (calculate_entropy p))

score_of_full :
    (total weak reused missing : ℕ)
    → weak + missing ≤ total
    → (reused ≤ total)
    → (score_of total weak reused missing ≡ 100) ↔ ((weak ≡ 0) × (reused ≡ 0) × (missing ≡ 0))
unfolding score_of
score_of_full total weak reused missing h k = ground arith

score_of-le : (total weak reused missing : ℕ) → score_of total weak reused missing ≤ 100
unfolding score_of
score_of-le total weak reused missing = ground arith

with_passwords-missing :
    (item : VaultItem) (items : List VaultItem)
    → truthy item.password ≡ none
    → with_passwords (item ∷ items) ≡ with_passwords items
unfolding with_passwords
with_passwords-missing item items e = rw (e, with_passwords)

with_passwords-present :
    (item : VaultItem) (items : List VaultItem) {p : Text}
    → truthy item.password ≡ some p
    → with_passwords (item ∷ items) ≡ p ∷ with_passwords items
unfolding with_passwords
with_passwords-present item items e = rw (e, with_passwords)

module _ (u : Unicode) where
  analyse_item-missing :
      (acc : Analysis) (item : VaultItem)
      → truthy item.password ≡ none
      → analyse_item u acc item ≡ record acc { missing = acc.missing + 1 }
  unfolding analyse_item
  analyse_item-missing acc item e = rw (e, analyse_item)

  analyse_item-present :
      (acc : Analysis) (item : VaultItem) {p : Text}
      → truthy item.password ≡ some p
      → analyse_item u acc item ≡ analyse_password u p acc
  unfolding analyse_item
  analyse_item-present acc item e = rw (e, analyse_item)

  -- What the fold of the security page accumulates, in the terms of the dashboard.
  record Agrees (acc : Analysis) (items : List VaultItem) (end : Analysis) : Type 0 where
    weak : end.weak ≡ acc.weak + length (filter has_weak_label (with_passwords items))
    reused : (end.reused, end.seen) ≡ reuse_loop u (acc.reused, acc.seen) (with_passwords items)
    missing : end.missing + length (with_passwords items) ≡ acc.missing + length items
    total : end.strong + end.weak + end.missing ≡ acc.strong + acc.weak + acc.missing + length items

  Agrees-missing :
      (acc : Analysis) (item : VaultItem) (items : List VaultItem) (end : Analysis)
      → truthy item.password ≡ none
      → Agrees (record acc { missing = acc.missing + 1 }) items end
      → Agrees acc (item ∷ items) end
  Agrees-missing acc item items end e h =
      let same = with_passwords-missing item items e in
      record {
        weak = rw same h.weak;
        reused = rw same h.reused;
        missing = rw same (omega (arith, h.missing));
        total = omega (arith, h.total);
      }

  Agrees-present :
      (acc : Analysis) (item : VaultItem) (items : List VaultItem) (end : Analysis) (p : Text)
      → truthy item.password ≡ some p
      → Agrees (analyse_password u p acc) items end
      → Agrees acc (item ∷ items) end
  unfolding analyse_password reuse_loop
  Agrees-present acc item items end p e h =
      let more = with_passwords-present item items e in
      record {
        weak = rw more (ground (arith, h.weak, weak_label p));
        reused = rw more h.reused;
        missing = rw more (ground (arith, h.missing));
        total = ground (arith, h.total);
      }

  Agrees-analyse_from :
      (items : List VaultItem) (acc : Analysis) → Agrees acc items (analyse_from u acc items)
  unfolding analyse_from with_passwords reuse_loop
  Agrees-analyse_from [] acc = record {
    weak = omega arith;
    reused = refl;
    missing = omega arith;
    total = omega arith;
  }
  Agrees-analyse_from (item ∷ items) acc = elim (Option-cases (truthy item.password)) [
    | inl e ↦ rw (analyse_item-missing acc item e) (
        Agrees-missing acc item items _ e
          (Agrees-analyse_from items (record acc { missing = acc.missing + 1 })))
    | inr (p, e) ↦
        rw (analyse_item-present acc item e) (
          Agrees-present acc item items _ p e
            (Agrees-analyse_from items (analyse_password u p acc)))
  ]

  -- The dashboard shows the score of the security page, and the same weak and reused passwords, for
  -- every vault.
  pub dashboard-security :
      (items : List VaultItem)
      → ((dashboard u items).score ≡ security_score u items)
        × ((dashboard u items).weak ≡ (analyse u items).weak)
        × ((dashboard u items).reused ≡ (analyse u items).reused)
  unfolding dashboard security_score analyse
  dashboard-security items =
      let h = Agrees-analyse_from items no_analysis in
      let weak : length (filter has_weak_label (with_passwords items)) ≡ (analyse u items).weak =
        omega (arith, h.weak) in
      let reused : (reuse_loop u (0, []) (with_passwords items)).0 ≡ (analyse u items).reused =
        ap (λ (r : ℕ × List Text). r.0) (sym h.reused) in
      let missing : length items - length (with_passwords items) ≡ (analyse u items).missing =
        omega (arith, h.missing) in
      (rw (weak, reused, missing), weak, reused)

  -- The security page counts every item once: as strong, as weak or as missing a password.
  pub analyse-total :
      (items : List VaultItem)
      → (analyse u items).strong + (analyse u items).weak + (analyse u items).missing ≡ length items
  unfolding analyse
  analyse-total items = omega (arith, (Agrees-analyse_from items no_analysis).total)

  reuse_loop-le :
      (ps : List Text) (n : ℕ) (seen : List Text) → (reuse_loop u (n, seen) ps).0 ≤ n + length ps
  unfolding reuse_loop
  reuse_loop-le [] n seen = omega arith
  reuse_loop-le (p ∷ ps) n seen = elim (Bool-cases (has_text (to_lower_case u p) seen)) [
    | inl again ↦ rw (again, reuse_loop) (omega (arith, reuse_loop-le ps (n + 1) seen))
    | inr first ↦
        rw (first, reuse_loop) (omega (arith, reuse_loop-le ps n (to_lower_case u p ∷ seen)))
  ]

  -- The security score is at most 100, and it is 100 exactly when the page finds no weak, no reused
  -- and no missing password.
  pub security_score_full :
      (items : List VaultItem)
      → (security_score u items ≤ 100)
        × ((security_score u items ≡ 100) ↔ (
            ((analyse u items).weak ≡ 0)
            × ((analyse u items).reused ≡ 0)
            × ((analyse u items).missing ≡ 0)))
  unfolding security_score analyse
  security_score_full items =
      let h = Agrees-analyse_from items no_analysis in
      let few : (analyse u items).reused ≤ length (with_passwords items) =
        rw (ap (λ (r : ℕ × List Text). r.0) h.reused)
          (omega (arith, reuse_loop-le (with_passwords items) 0 [])) in
      (
        score_of-le _ _ _ _,
        score_of_full (length items) _ _ _ (omega (arith, h.total)) (omega (arith, h.missing)),
      )
