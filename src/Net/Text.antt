-- ===== src/Net/Text.antt =====
-- IP addresses as text: `ip_parse` and `ip_fmt` of kernel/net/net.c.
use spike_os.Prelude.{
  ℕ, ◌+◌, ◌-◌, ◌*◌, ◌/◌, ◌%◌, ◌^◌, ◌<◌, ◌≡◌, refl, Bool, true, ◌&&◌, ◌==◌, ltb, leb, if◌then◌else◌,
  List, [], ◌∷◌, ◌++◌, arith, ◌∙◌, ap, sym, inl, inr, Bool-cases, length, get_or, set, get_or-set,
  set-set,
}
use mathlib.Core.List.{append-nil}
use spike_os.Net.{Bytes, byte}

abbrev is_digit : ℕ → Bool
is_digit c = leb 48 c && leb c 57

-- What a character does to the parts and to the index of the part that is read.
unfoldable pub next_parts : (c idx : ℕ) → List ℕ → List ℕ
next_parts c idx parts =
    if is_digit c then set parts idx ((get_or parts idx 0 * 10 + (c - 48)) % 2 ^ 32) else parts

unfoldable pub next_idx : (c idx : ℕ) → ℕ
next_idx c idx = if is_digit c then idx else if c == 46 then idx + 1 else idx

unfoldable pub parse_parts : Bytes → (idx : ℕ) → List ℕ → List ℕ
parse_parts [] idx parts = parts
parse_parts (c ∷ p) idx parts =
    let rest = parse_parts p (next_idx c idx) (next_parts c idx parts) in
    if ltb idx 4 then rest else parts

abbrev no_parts : List ℕ
no_parts = 0 ∷ (0 ∷ (0 ∷ (0 ∷ [])))

unfoldable pub join_parts : List ℕ → ℕ
join_parts parts =
    byte 0 parts % 256
    + 256 * (byte 1 parts % 256)
    + 65536 * (byte 2 parts % 256)
    + 16777216 * (byte 3 parts % 256)

unfoldable pub ip_parse : Bytes → ℕ
ip_parse str = join_parts (parse_parts str 0 no_parts)

-- A byte in decimal.
unfoldable pub uint_to_str : ℕ → Bytes
uint_to_str val =
    if leb 100 val
    then (48 + val / 100) ∷ ((48 + val / 10 % 10) ∷ ((48 + val % 10) ∷ []))
    else if leb 10 val
    then (48 + val / 10) ∷ ((48 + val % 10) ∷ [])
    else (48 + val) ∷ []

unfoldable pub ip_fmt : ℕ → Bytes
ip_fmt ip =
    uint_to_str (ip % 256)
    ++ (46
        ∷ (uint_to_str (ip / 256 % 256)
            ++ (46 ∷ (uint_to_str (ip / 65536 % 256) ++ (46 ∷ uint_to_str (ip / 16777216 % 256))))))

-- One digit more.
digit_step :
    (d idx : ℕ) (rest : Bytes) (parts : List ℕ)
    → d < 10
    → idx < 4
    → get_or parts idx 0 < 1000
    → parse_parts ((48 + d) ∷ rest) idx parts
      ≡ parse_parts rest idx (set parts idx (get_or parts idx 0 * 10 + d))
unfolding parse_parts next_parts next_idx
digit_step d idx rest parts h lt small =
    let t : is_digit (48 + d) ≡ true = ground arith in
    let u : ltb idx 4 ≡ true = ground arith in
    let v : (get_or parts idx 0 * 10 + (48 + d - 48)) % 2 ^ 32 ≡ get_or parts idx 0 * 10 + d =
      omega arith in
    rw (u, t, v)

-- The same after a first digit.
digit_on :
    (d v idx : ℕ) (rest : Bytes) (parts : List ℕ)
    → d < 10
    → idx < 4
    → length parts ≡ 4
    → v < 1000
    → parse_parts ((48 + d) ∷ rest) idx (set parts idx v)
      ≡ parse_parts rest idx (set parts idx (v * 10 + d))
digit_on d v idx rest parts h lt sized small =
    let e : get_or (set parts idx v) idx 0 ≡ v =
      ground (arith, get_or-set parts idx idx v 0 (omega (arith, sized))) in
    let step = digit_step d idx rest (set parts idx v) h lt (omega (arith, e)) in
    step ∙ rw (e, set-set parts idx v (v * 10 + d))

first_digit :
    (d idx : ℕ) (rest : Bytes) (parts : List ℕ)
    → d < 10
    → idx < 4
    → get_or parts idx 0 ≡ 0
    → parse_parts ((48 + d) ∷ rest) idx parts ≡ parse_parts rest idx (set parts idx d)
first_digit d idx rest parts h lt empty =
    digit_step d idx rest parts h lt (omega (arith, empty))
    ∙ ap (λ v. parse_parts rest idx (set parts idx v)) (omega (arith, empty))

-- A number in decimal fills its part.
number_step :
    (val idx : ℕ) (rest : Bytes) (parts : List ℕ)
    → val < 256
    → idx < 4
    → length parts ≡ 4
    → get_or parts idx 0 ≡ 0
    → parse_parts (uint_to_str val ++ rest) idx parts ≡ parse_parts rest idx (set parts idx val)
unfolding uint_to_str
number_step val idx rest parts small lt sized empty =
    let first : (d : ℕ) (r : Bytes)
        → d < 10
        → parse_parts ((48 + d) ∷ r) idx parts ≡ parse_parts r idx (set parts idx d) =
      λ d r h. first_digit d idx r parts h lt empty in
    elim (Bool-cases (leb 100 val)) [
      | inl big ↦ rw big (
          first (val / 100) ((48 + val / 10 % 10) ∷ ((48 + val % 10) ∷ rest)) (omega arith)
          ∙ digit_on (val / 10 % 10) (val / 100) idx ((48 + val % 10) ∷ rest) parts (omega arith) lt
              sized (omega arith)
          ∙ digit_on (val % 10) (val / 100 * 10 + val / 10 % 10) idx rest parts (omega arith) lt
              sized (omega arith)
          ∙ ap (λ v. parse_parts rest idx (set parts idx v)) (omega arith))
      | inr low ↦ elim (Bool-cases (leb 10 val)) [
        | inl two ↦
            rw (low, two)
              (first (val / 10) ((48 + val % 10) ∷ rest) (ground arith)
                ∙ digit_on (val % 10) (val / 10) idx rest parts (omega arith) lt sized (omega arith)
                ∙ ap (λ v. parse_parts rest idx (set parts idx v)) (omega arith))
        | inr one ↦ rw (low, one) (first val rest (ground arith))
      ]
    ]

-- A dot ends a part.
dot_step :
    (idx : ℕ) (rest : Bytes) (parts : List ℕ)
    → idx < 4
    → parse_parts (46 ∷ rest) idx parts ≡ parse_parts rest (idx + 1) parts
unfolding parse_parts next_parts next_idx
dot_step idx rest parts lt = let t : ltb idx 4 ≡ true = ground arith in rw t

last_step :
    (val : ℕ) (parts : List ℕ)
    → val < 256
    → length parts ≡ 4
    → get_or parts 3 0 ≡ 0
    → parse_parts (uint_to_str val) 3 parts ≡ set parts 3 val
unfolding parse_parts
last_step val parts small sized empty =
    ap (λ r. parse_parts r 3 parts) (sym (append-nil (uint_to_str val)))
    ∙ number_step val 3 [] parts small (omega arith) sized empty

-- The text of an address, `a.b.c.d` in decimal, is read as that address.
pub ip_parse-ip_fmt : (ip : ℕ) → ip < 2 ^ 32 → ip_parse (ip_fmt ip) ≡ ip
unfolding ip_parse ip_fmt join_parts
ip_parse-ip_fmt ip h =
    let a = ip % 256 in
    let b = ip / 256 % 256 in
    let c = ip / 65536 % 256 in
    let d = ip / 16777216 % 256 in
    let last = uint_to_str d in
    let third = uint_to_str c ++ (46 ∷ last) in
    let second = uint_to_str b ++ (46 ∷ third) in
    let all : parse_parts (uint_to_str a ++ (46 ∷ second)) 0 no_parts ≡ a ∷ (b ∷ (c ∷ (d ∷ []))) =
      number_step a 0 (46 ∷ second) no_parts (omega arith) (omega arith) refl refl
      ∙ dot_step 0 second (a ∷ (0 ∷ (0 ∷ (0 ∷ [])))) (omega arith)
      ∙ number_step b 1 (46 ∷ third) (a ∷ (0 ∷ (0 ∷ (0 ∷ [])))) (omega arith) (omega arith) refl
          refl
      ∙ dot_step 1 third (a ∷ (b ∷ (0 ∷ (0 ∷ [])))) (omega arith)
      ∙ number_step c 2 (46 ∷ last) (a ∷ (b ∷ (0 ∷ (0 ∷ [])))) (omega arith) (omega arith) refl refl
      ∙ dot_step 2 last (a ∷ (b ∷ (c ∷ (0 ∷ [])))) (omega arith)
      ∙ last_step d (a ∷ (b ∷ (c ∷ (0 ∷ [])))) (omega arith) refl refl in
    ap join_parts all ∙ omega arith
