-- ===== src/Breach.antt =====
-- lib/breaches.ts, the password half; the e-mail half and the scans of app/monitor/page.tsx stand in the
-- child modules. SHA-1 is a parameter (`digest`), the network a function of the address; the two caches are
-- association lists with the newest entry in front. The service's counts have no sign.
pub mod Privacy
pub mod Scan
pub mod Email
pub mod Watching
use personal_password_manage.Prelude.{
  ℕ, ◌+◌, ◌-◌, ◌*◌, ◌/◌, ◌%◌, Bool, true, false, ◌&&◌, ◌||◌, not, Option, none, some, List, [], ◌∷◌,
  ◌++◌, ltb, leb, ◌==◌, if◌then◌else◌, is_some, or_else, Text, codes, text_eq, is_empty, is_digit,
  Unicode, to_upper_case, take, drop, filter, length,
}
use personal_password_manage.Utf8.{encode}
use personal_password_manage.Api.{is_ok, decimal}
use personal_password_manage.Health.{truthy}
use personal_password_manage.Vault.{VaultItem}

abbrev pub hex_digit : ℕ → ℕ
hex_digit n = if ltb n 10 then 48 + n else 87 + n

-- `b.toString(16).padStart(2, '0')`, joined
pub hex : List ℕ → Text
hex [] = []
hex (b ∷ bs) = hex_digit (b / 16) ∷ hex_digit (b % 16) ∷ hex bs

unfoldable pub sha1_hex : (List ℕ → List ℕ) → Text → Text
unfolding hex
sha1_hex digest text = hex (digest (encode text))

abbrev pub pwned_passwords_api : Text
pwned_passwords_api = codes "https://api.pwnedpasswords.com/range/"

pub record Caches : Type 0 where
  pub ranges : List (Text × Text)
  pub passwords : List (Text × ℕ)

-- `Map.get`
abbrev pub lookup {ℓ} : {A : Type ℓ} → Text → List (Text × A) → Option A
lookup key [] = none
lookup key ((k, a) ∷ rest) = if text_eq k key then some a else lookup key rest

-- White space of `trim` and `parseInt`.
abbrev pub is_white : ℕ → Bool
is_white c =
    (leb 9 c && leb c 13)
    || c == 32
    || c == 160
    || c == 0x1680
    || (leb 0x2000 c && leb c 0x200A)
    || c == 0x2028
    || c == 0x2029
    || c == 0x202F
    || c == 0x205F
    || c == 0x3000
    || c == 0xFEFF

unfoldable pub trim_start : Text → Text
trim_start [] = []
trim_start (c ∷ s) = let rest = trim_start s in if is_white c then rest else c ∷ s

unfoldable pub trim_end : Text → Text
trim_end [] = []
trim_end (c ∷ s) = let rest = trim_end s in if is_white c && is_empty rest then [] else c ∷ rest

unfoldable pub trim : Text → Text
unfolding trim_start trim_end
trim s = trim_start (trim_end s)

-- `s.split(c)`: a first part, and the others.
unfoldable pub split_on : ℕ → Text → Text × List Text
split_on c [] = ([], [])
split_on c (d ∷ s) =
    let (part, parts) = split_on c s in if d == c then ([], part ∷ parts) else (d ∷ part, parts)

pub digits_from : ℕ → Text → ℕ
digits_from n [] = n
digits_from n (c ∷ s) =
    let more = digits_from (n * 10 + (c - 48)) s in if is_digit c then more else n

abbrev pub unsigned : Text → Text
unsigned [] = []
unsigned (c ∷ s) = if c == b'+' then s else c ∷ s

-- `parseInt(s, 10) || 0`
pub parse_count : Text → ℕ
unfolding digits_from trim_start
parse_count s = digits_from 0 (unsigned (trim_start s))

-- `parseInt(countStr ?? '0', 10) || 0`
pub first_count : List Text → ℕ
unfolding parse_count
first_count [] = 0
first_count (count_text ∷ _) = parse_count count_text

-- The loop over the lines of a range.
pub count_in : Text → List Text → ℕ
unfolding trim split_on first_count
count_in suffix [] = 0
count_in suffix (line ∷ lines) =
    let (hash_suffix, rest) = split_on b':' (trim line) in
    let count = first_count rest in
    let more = count_in suffix lines in if text_eq hash_suffix suffix then count else more

unfoldable pub count_of : Text → Text → ℕ
unfolding count_in split_on
count_of suffix suffixes =
    let (line, lines) = split_on b'\n' suffixes in count_in suffix (line ∷ lines)

pub data RangeAnswer : Type 0 where
  unreachable : Text → RangeAnswer
  answered : ℕ → Text → RangeAnswer

pub data Counted : Type 0 where
  counted : ℕ → Counted
  threw : Text → Counted

-- The result, the caches, and the addresses that were fetched.
pub record Check : Type 0 where
  pub result : Counted
  pub caches : Caches
  pub fetched : List Text

abbrev pub finish : Text → Text → List Text → Caches → Check
finish hash suffixes fetched caches =
    let count = count_of (drop 5 hash) suffixes in
    record {
      result = counted count;
      caches = record caches { passwords = (hash, count) ∷ caches.passwords };
      fetched = fetched;
    }

abbrev pub password_hash : Unicode → (List ℕ → List ℕ) → Text → Text
password_hash u digest password = to_upper_case u (sha1_hex digest password)

module _ (u : Unicode) (digest : List ℕ → List ℕ) (fetch : Text → RangeAnswer) where
  -- What follows when the hash is in no cache.
  unfoldable pub fetch_range : Text → Caches → Check
  fetch_range hash caches =
      let url = pwned_passwords_api ++ take 5 hash in
      elim (fetch url) [
        | unreachable message ↦ record {
          result = threw message;
          caches = caches;
          fetched = url ∷ [];
        }
        | answered status body ↦
            if is_ok status
            then finish hash body (url ∷ [])
                (record caches { ranges = (take 5 hash, body) ∷ caches.ranges })
            else record {
              result = threw (codes "Pwned Passwords responded " ++ decimal status);
              caches = caches;
              fetched = url ∷ [];
            }
      ]

  unfoldable pub check_hash : Text → Caches → Check
  check_hash hash caches = elim (lookup hash caches.passwords) [
    | some count ↦ record { result = counted count; caches = caches; fetched = [] }
    | none ↦ elim (lookup (take 5 hash) caches.ranges) [
      | some suffixes ↦ finish hash suffixes [] caches
      | none ↦ fetch_range hash caches
    ]
  ]

  unfoldable pub check_password_breach_count : Text → Caches → Check
  check_password_breach_count password caches =
      if is_empty password
      then record { result = counted 0; caches = caches; fetched = [] }
      else check_hash (password_hash u digest password) caches
