-- ===== src/Clipboard/Clearing.antt =====
-- How long a copied text stays in the clipboard.
use personal_password_manage.Prelude.{
  ℕ, zero, suc, ◌-◌, ◌<◌, ◌≡◌, refl, inl, inr, Bool, true, false, not, none, some, List, [], ◌∷◌,
  map, arith, leb, if◌then◌else◌, Bool-cases, Text, any, filter, All,
}
use personal_password_manage.Clipboard.{Clip, clear_after, handle_copy, is_due, millisecond, wait}

abbrev within : ℕ → ℕ → Bool
within n left = leb left n

abbrev remaining : List ℕ → List ℕ
remaining timers = map (λ t. t - 1) (filter (λ t. not (is_due t)) timers)

-- A timer within the time that none is due in runs in the rest of it.
within-remaining :
    (n : ℕ) (timers : List ℕ)
    → any is_due timers ≡ false
    → any (within (suc n)) timers ≡ true
    → any (within n) (remaining timers) ≡ true
within-remaining n [] d h = h
within-remaining n (t ∷ timers) d h = ground (arith, within-remaining n timers)

millisecond-due :
    (c : Clip)
    → any is_due c.timers ≡ true
    → millisecond c ≡ record { clipboard = []; copied = none; timers = remaining c.timers }
unfolding millisecond
millisecond-due c h = rw h

millisecond-idle :
    (c : Clip)
    → any is_due c.timers ≡ false
    → millisecond c ≡ record c { timers = remaining c.timers }
unfolding millisecond
millisecond-idle c h = rw h

abbrev IsCleared : Clip → Type 0
IsCleared c = (c.clipboard ≡ []) × (c.copied ≡ none)

wait-empty : (n : ℕ) (c : Clip) → IsCleared c → IsCleared (wait n c)
unfolding wait
wait-empty zero c h = h
wait-empty (suc n) c h = elim (Bool-cases (any is_due c.timers)) [
  | inl due ↦ wait-empty n (millisecond c) (rw (millisecond-due c due) (refl, refl))
  | inr idle ↦ wait-empty n (millisecond c) (rw (millisecond-idle c idle) h)
]

wait-clears : (n : ℕ) (c : Clip) → any (within (suc n)) c.timers ≡ true → IsCleared (wait (suc n) c)
unfolding wait
wait-clears zero c h = rw (millisecond-due c h) (refl, refl)
wait-clears (suc n) c h = elim (Bool-cases (any is_due c.timers)) [
  | inl due ↦ wait-empty (suc n) (millisecond c) (rw (millisecond-due c due) (refl, refl))
  | inr idle ↦
      wait-clears n (millisecond c)
        (rw (millisecond-idle c idle) (within-remaining (suc n) c.timers idle h))
]

abbrev Later : ℕ → ℕ → Type 0
Later n left = n < left

none_due : (n : ℕ) (timers : List ℕ) → All (Later (suc n)) timers → any is_due timers ≡ false
none_due n [] h = refl
none_due n (t ∷ timers) h = ground (arith, none_due n timers h.1)

remaining-Later :
    (n : ℕ) (timers : List ℕ) → All (Later (suc n)) timers → All (Later n) (remaining timers)
remaining-Later n [] h = tt
remaining-Later n (t ∷ timers) h =
    let early : leb t 1 ≡ false = ground (arith, h.0) in
    rw early (omega (arith, h.0), remaining-Later n timers h.1)

wait-keeps :
    (n : ℕ) (c : Clip)
    → All (Later n) c.timers
    → ((wait n c).clipboard ≡ c.clipboard) × ((wait n c).copied ≡ c.copied)
unfolding wait
wait-keeps zero c h = (refl, refl)
wait-keeps (suc n) c h =
    let later = remaining-Later n c.timers h in
    let (a, b) = wait-keeps n (record c { timers = remaining c.timers }) later in
    rw (wait, millisecond-idle c (none_due n c.timers h)) (a, b)

Later-none : (n : ℕ) (timers : List ℕ) → any (within n) timers ≡ false → All (Later n) timers
Later-none n [] h = tt
Later-none n (t ∷ timers) h = (ground arith, Later-none n timers (ground arith))

-- After n milliseconds without another copy, the clipboard is empty and no field is marked if the thirty
-- seconds of the copy, or the rest of the time of an earlier one, are over; otherwise the clipboard still
-- holds the copied text and its field is marked.
pub handle_copy-cleared :
    (text field : Text) (c : Clip) (n : ℕ)
    → 0 < n
    → let over = any (λ left. leb left n) (clear_after ∷ c.timers) in
      let later = wait n (handle_copy text field c) in
      (later.clipboard ≡ (if over then [] else text))
      × (later.copied ≡ (if over then none else some field))
unfolding handle_copy
handle_copy-cleared text field c zero h = absurd (omega (arith, h))
handle_copy-cleared text field c (suc n) h =
    let copied = handle_copy text field c in
    elim (Bool-cases (any (within (suc n)) copied.timers)) [
      | inl over ↦ rw over (wait-clears n copied over)
      | inr early ↦ rw early (wait-keeps (suc n) copied (Later-none (suc n) copied.timers early))
    ]
