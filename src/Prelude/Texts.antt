-- ===== src/Prelude/Texts.antt =====
-- Texts as the source sees them: the UTF-16 code units of a string, and their number.
use Prim.Native.Nat.{ℕ, zero, suc, ◌+◌, ◌-◌, ◌/◌, ◌%◌}
use Prim.Native.Char.{Char, code}
use Prim.Native.String.{String, char_at, ◌++◌ as append}
use mathlib.Core.Path.{◌≡◌}
use mathlib.Core.List.{List, [], ◌∷◌}
use native.Mathlib.Omega.{arith}
use text.Mathlib.TextLemmas.{nil-append, cons-append}
use specrails_core.Prelude.Tests.{ltb, leb, ◌==◌, if◌then◌else◌}
use mathlib.Core.Bool.{Bool, false, ◌&&◌, ◌||◌}
use specrails_core.Prelude.Lists.{all}

-- The code points of a text.
abbrev pub codes : String → List ℕ
codes String.[] = []
codes (String.◌∷◌ c s) = code c ∷ codes s

-- `text.length`: a code point above 0xffff takes two units.
abbrev pub units_of : ℕ → ℕ
units_of c = if ltb c 0x10000 then 1 else 2

unfoldable pub text_length : String → ℕ
text_length String.[] = 0
text_length (String.◌∷◌ c s) = units_of (code c) + text_length s

-- `text.slice(0, n)`; a pair of units that the cut would split is dropped whole.
pub slice : ℕ → String → String
slice n String.[] = String.[]
slice n (String.◌∷◌ c s) =
    let rest = slice (n - units_of (code c)) s in
    if ltb n (units_of (code c)) then String.[] else String.◌∷◌ c rest

-- `Buffer.byteLength(text, 'utf8')`
abbrev pub bytes_of : ℕ → ℕ
bytes_of c = if ltb c 0x80 then 1 else (if ltb c 0x800 then 2 else (if ltb c 0x10000 then 3 else 4))

unfoldable pub byte_length : String → ℕ
byte_length String.[] = 0
byte_length (String.◌∷◌ c s) = bytes_of (code c) + byte_length s

-- The white space that `trim` takes away.
abbrev pub is_space : ℕ → Bool
is_space c =
    (leb 9 c && leb c 13)
    || c == 32
    || c == 0xa0
    || c == 0x1680
    || (leb 0x2000 c && leb c 0x200a)
    || c == 0x2028
    || c == 0x2029
    || c == 0x202f
    || c == 0x205f
    || c == 0x3000
    || c == 0xfeff

-- `!text.trim()`
abbrev pub is_blank : String → Bool
is_blank s = all is_space (codes s)

abbrev pub hex_char : ℕ → Char
hex_char n = char_at "0123456789abcdef" n

-- A character in a JSON text, as `JSON.stringify` writes it.
abbrev pub json_char : Char → String → String
json_char c rest =
    let n = code c in
    if n == 34
    then append "\\\"" rest
    else (if n == 92
        then append "\\\\" rest
        else (if n == 8
            then append "\\b" rest
            else (if n == 9
                then append "\\t" rest
                else (if n == 10
                    then append "\\n" rest
                    else (if n == 12
                        then append "\\f" rest
                        else (if n == 13
                            then append "\\r" rest
                            else (if ltb n 32
                                then append "\\u00" (
                                    String.◌∷◌ (hex_char (n / 16))
                                      (String.◌∷◌ (hex_char (n % 16)) rest))
                                else String.◌∷◌ c rest)))))))

pub json_chars : String → String
json_chars String.[] = "\""
json_chars (String.◌∷◌ c s) = json_char c (json_chars s)

-- `JSON.stringify(text)`
unfoldable pub json_string : String → String
unfolding json_chars
json_string s = append "\"" (json_chars s)

-- `text.trim()`
abbrev pub trim_start : String → String
trim_start String.[] = String.[]
trim_start (String.◌∷◌ c s) = if is_space (code c) then trim_start s else String.◌∷◌ c s

abbrev pub trim_end : String → String
trim_end String.[] = String.[]
trim_end (String.◌∷◌ c s) =
    let rest = trim_end s in
    if is_space (code c) && is_blank s then String.[] else String.◌∷◌ c rest

unfoldable pub trim : String → String
trim s = trim_end (trim_start s)

-- A number in decimal; `n + 1` digits are enough.
pub decimal_loop : ℕ → ℕ → String → String
decimal_loop zero n rest = rest
decimal_loop (suc fuel) n rest =
    let digits = String.◌∷◌ (char_at "0123456789" (n % 10)) rest in
    if ltb n 10 then digits else decimal_loop fuel (n / 10) digits

unfoldable pub decimal : ℕ → String
unfolding decimal_loop
decimal n = decimal_loop (suc n) n ""

-- `/^\s*\n/.test(text)`
abbrev pub starts_line : List ℕ → Bool
starts_line [] = false
starts_line (c ∷ cs) = c == 10 || (is_space c && starts_line cs)

-- The code units that `charCodeAt` reads.
unfoldable pub code_units : List ℕ → List ℕ
code_units [] = []
code_units (c ∷ cs) =
    let rest = code_units cs in
    if ltb c 0x10000
    then c ∷ rest
    else (0xd800 + (c - 0x10000) / 1024) ∷ (0xdc00 + (c - 0x10000) % 1024) ∷ rest

pub text_length-append : (s t : String) → text_length (append s t) ≡ text_length s + text_length t
unfolding text_length
text_length-append String.[] t = rw nil-append (omega arith)
text_length-append (String.◌∷◌ c s) t = rw cons-append (omega (arith, text_length-append s t))
