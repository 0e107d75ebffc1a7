-- ===== src/Session/Fingerprint.antt =====
-- src/agent-runtime/session/domain/fingerprint.ts: 64-bit FNV-1a over UTF-16 code units, in
-- hexadecimal. A fingerprint is the list of its characters' codes.
pub mod Decoded
use Prim.Native.Nat.{bit_xor}
use specrails_core.Prelude.{
  ℕ, zero, suc, ◌+◌, ◌-◌, ◌*◌, ◌/◌, ◌%◌, ◌^◌, String, List, [], ◌∷◌, length, ltb, ◌==◌,
  if◌then◌else◌,
}
use specrails_core.Prelude.Texts.{codes, code_units}

abbrev pub fnv_offset : ℕ
fnv_offset = 0xcbf29ce484222325

abbrev pub fnv_prime : ℕ
fnv_prime = 0x100000001b3

pub fnv_step : ℕ → ℕ → ℕ
fnv_step hash unit = bit_xor hash unit * fnv_prime % 2 ^ 64

-- The loop over the code units.
pub fnv_loop : ℕ → List ℕ → ℕ
unfolding fnv_step
fnv_loop hash [] = hash
fnv_loop hash (unit ∷ units) = fnv_loop (fnv_step hash unit) units

pub fnv : String → ℕ
unfolding fnv_loop code_units
fnv text = fnv_loop fnv_offset (code_units (codes text))

-- A hexadecimal digit of `toString(16)`.
pub hex_digit : ℕ → ℕ
hex_digit d = if ltb d 10 then b'0' + d else b'a' + (d - 10)

-- The digits of `n` before `acc`, while digits are left; the fuel is the number of digits at most.
pub hex_loop : ℕ → ℕ → List ℕ → List ℕ
unfolding hex_digit
hex_loop zero n acc = acc
hex_loop (suc fuel) n acc =
    let rest = hex_loop fuel (n / 16) (hex_digit (n % 16) ∷ acc) in if n == 0 then acc else rest

abbrev pub zeros : ℕ → List ℕ → List ℕ
zeros zero text = text
zeros (suc n) text = b'0' ∷ zeros n text

-- `hash.toString(16).padStart(16, '0')`: 0 is "0", and then padded like any other number.
pub hex16 : ℕ → List ℕ
unfolding hex_loop
hex16 n = let digits = hex_loop 16 n [] in zeros (16 - length digits) digits

unfoldable pub fingerprint : String → List ℕ
unfolding hex16 fnv
fingerprint text = hex16 (fnv text)
