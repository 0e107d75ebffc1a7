-- ===== src/Session/Fingerprint/Decoded.antt =====
-- A fingerprint is the hash, in 16 hexadecimal digits.
use specrails_core.Prelude.{
  ℕ, zero, suc, ◌+◌, ◌-◌, ◌*◌, ◌/◌, ◌%◌, ◌^◌, ◌≤◌, ◌<◌, ◌≡◌, refl, ◌∙◌, String, List, [], ◌∷◌,
  length, ltb, ◌==◌, if◌then◌else◌, arith, ap, Bool-cases, inl, inr,
}
use native.Mathlib.Numerals.{unary_clauses}
use specrails_core.Prelude.Texts.{codes, code_units}
use specrails_core.Session.Fingerprint.{
  fnv_step, fnv_loop, fnv, fnv_offset, hex_digit, hex_loop, hex16, zeros, fingerprint,
}

abbrev digit_value : ℕ → ℕ
digit_value c = if ltb c b'a' then c - b'0' else c - b'a' + 10

-- The number that hexadecimal digits stand for, behind those read so far.
abbrev read_from : ℕ → List ℕ → ℕ
read_from n [] = n
read_from n (c ∷ cs) = read_from (n * 16 + digit_value c) cs

pub read_hex : List ℕ → ℕ
read_hex cs = read_from 0 cs

digit_value-hex_digit : (d : ℕ) → d < 16 → digit_value (hex_digit d) ≡ d
unfolding hex_digit
digit_value-hex_digit d h = ground arith

last_digit : (n : ℕ) → n / 16 * 16 + digit_value (hex_digit (n % 16)) ≡ n
last_digit n = rw (digit_value-hex_digit (n % 16) (omega arith)) (omega arith)

shorter : (n fuel : ℕ) → n < 16 ^ suc fuel → n / 16 < 16 ^ fuel
shorter n fuel h = let h' = simp unary_clauses at h in omega arith

read-hex_loop :
    (fuel n : ℕ) (acc : List ℕ)
    → n < 16 ^ fuel
    → read_from 0 (hex_loop fuel n acc) ≡ read_from n acc
unfolding hex_loop
read-hex_loop zero n acc h = ap (λ k. read_from k acc) (omega arith)
read-hex_loop (suc fuel) n acc h = elim (Bool-cases (n == 0)) [
  | inl z ↦ rw z (ap (λ k. read_from k acc) (ground (arith, z)))
  | inr nz ↦ rw nz (
      read-hex_loop fuel (n / 16) (hex_digit (n % 16) ∷ acc) (shorter n fuel h)
      ∙ ap (λ k. read_from k acc) (last_digit n))
]

length-hex_loop : (fuel n : ℕ) (acc : List ℕ) → length (hex_loop fuel n acc) ≤ length acc + fuel
unfolding hex_loop
length-hex_loop zero n acc = omega arith
length-hex_loop (suc fuel) n acc = elim (Bool-cases (n == 0)) [
  | inl z ↦ rw z (omega arith)
  | inr nz ↦
      rw nz (
        let rest = length-hex_loop fuel (n / 16) (hex_digit (n % 16) ∷ acc) in ground (arith, rest))
]

length-zeros : (k : ℕ) (cs : List ℕ) → length (zeros k cs) ≡ k + length cs
length-zeros zero cs = omega arith
length-zeros (suc k) cs = ground (arith, length-zeros k cs)

read-zeros : (k : ℕ) (cs : List ℕ) → read_from 0 (zeros k cs) ≡ read_from 0 cs
read-zeros zero cs = refl
read-zeros (suc k) cs = read-zeros k cs

fnv_loop_small : (hash : ℕ) (units : List ℕ) → hash < 2 ^ 64 → fnv_loop hash units < 2 ^ 64
unfolding fnv_loop fnv_step
fnv_loop_small hash [] h = h
fnv_loop_small hash (u ∷ us) h = fnv_loop_small (fnv_step hash u) us (omega arith)

fnv_small : (text : String) → fnv text < 2 ^ 64
unfolding fnv
fnv_small text = fnv_loop_small fnv_offset (code_units (codes text)) (omega arith)

-- A fingerprint has 16 digits, and they are the hash of the text, which is a 64-bit number: two
-- texts have one fingerprint only where their hashes agree.
pub fingerprint_decodes :
    (text : String)
    → (length (fingerprint text) ≡ 16)
      × (read_hex (fingerprint text) ≡ fnv text)
      × (fnv text < 2 ^ 64)
unfolding fingerprint hex16 read_hex
fingerprint_decodes text =
    let small = fnv_small text in
    let short = length-hex_loop 16 (fnv text) [] in
    (
      length-zeros (16 - length (hex_loop 16 (fnv text) [])) (hex_loop 16 (fnv text) [])
          ∙ omega arith,
      read-zeros (16 - length (hex_loop 16 (fnv text) [])) (hex_loop 16 (fnv text) [])
          ∙ read-hex_loop 16 (fnv text) [] small,
      small,
    )
