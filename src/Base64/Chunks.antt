-- ===== src/Base64/Chunks.antt =====
-- Joining the slices gives the bytes back, with as much fuel as there are bytes.
use personal_password_manage.Prelude.{
  ℕ, zero, suc, ◌≤◌, ◌<◌, ◌≡◌, refl, ap, ◌∙◌, List, [], ◌∷◌, ◌++◌, arith, length, take, drop,
  take-append-drop,
}
use personal_password_manage.Base64.{join_chunks}

length-drop-lt :
    (size : ℕ) (b : ℕ) (bytes : List ℕ) → 0 < size → length (drop size (b ∷ bytes)) ≤ length bytes
length-drop-lt zero b bytes h = absurd (omega arith)
length-drop-lt (suc n) b bytes h = length-drop-le n bytes
  where
    length-drop-le : (n : ℕ) (bytes : List ℕ) → length (drop n bytes) ≤ length bytes
    length-drop-le zero bytes = omega arith
    length-drop-le (suc n) [] = omega arith
    length-drop-le (suc n) (x ∷ xs) = omega (arith, length-drop-le n xs)

pub join_chunks-eq :
    (fuel size : ℕ) (bytes : List ℕ)
    → 0 < size
    → length bytes ≤ fuel
    → join_chunks fuel size bytes ≡ bytes
unfolding join_chunks
join_chunks-eq zero size [] h k = refl
join_chunks-eq zero size (b ∷ bytes) h k = absurd (omega arith)
join_chunks-eq (suc fuel) size [] h k = refl
join_chunks-eq (suc fuel) size (b ∷ bytes) h k =
    ap (λ (s : List ℕ). take size (b ∷ bytes) ++ s)
      (join_chunks-eq fuel size (drop size (b ∷ bytes)) h
        (omega (arith, length-drop-lt size b bytes h)))
    ∙ take-append-drop size (b ∷ bytes)
