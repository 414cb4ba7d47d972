-- ===== src/Text.antt =====
-- Python 2 byte strings as lists of character codes, and the parts of `str`, `int` and `re` that
-- vcompute/common/scripts/ipmi_sim/*.py use.
pub mod RoundTrip
pub mod Fixed
use Prim.Native.Char.{code}
use idic.Prelude.{
  ℕ, zero, suc, ◌+◌, ◌-◌, ◌*◌, ◌/◌, ◌%◌, ◌^◌, String, Bool, true, false, ◌&&◌, ◌||◌, Option, none,
  some, List, [], ◌∷◌, ◌++◌, map, ltb, leb, ◌==◌, if◌then◌else◌, length, take, drop, replicate, not,
}
use mathlib.Core.Option
use idic.Prelude.Int.{ℤ, pos, negsuc, neg_of}

abbrev pub Text : Type 0
Text = List ℕ

-- The codes of a literal. Shut, so that a literal stays one word in a goal.
unfoldable pub codes : String → Text
codes String.[] = []
codes (String.◌∷◌ c s) = code c ∷ codes s

unfoldable pub text_eq : Text → Text → Bool
text_eq [] [] = true
text_eq (c ∷ s) (d ∷ t) = c == d && text_eq s t
text_eq _ _ = false

unfoldable pub mem_text : Text → List Text → Bool
unfolding text_eq
mem_text s [] = false
mem_text s (t ∷ ts) = text_eq s t || mem_text s ts

-- Characters.
unfoldable pub is_space : ℕ → Bool
is_space c = (leb 9 c && leb c 13) || c == 32

unfoldable pub lower_char : ℕ → ℕ
lower_char c = if leb b'A' c && leb c b'Z' then c + 32 else c

unfoldable pub upper_char : ℕ → ℕ
upper_char c = if leb b'a' c && leb c b'z' then c - 32 else c

unfoldable pub lower : Text → Text
unfolding lower_char
lower = map lower_char

unfoldable pub upper : Text → Text
unfolding upper_char
upper = map upper_char

-- `s.startswith(prefix)`.
unfoldable pub starts_with : Text → Text → Bool
starts_with s [] = true
starts_with [] (p ∷ ps) = false
starts_with (c ∷ s) (p ∷ ps) = c == p && starts_with s ps

-- `s.lstrip()` and `s.strip()`.
unfoldable pub lstrip : Text → Text
unfolding is_space
lstrip [] = []
lstrip (c ∷ s) = let rest = lstrip s in if is_space c then rest else c ∷ s

unfoldable pub rstrip : Text → Text
unfolding is_space
rstrip [] = []
rstrip (c ∷ s) = elim (rstrip s) [ [] ↦ (if is_space c then [] else c ∷ []) | d ∷ r ↦ c ∷ d ∷ r ]

unfoldable pub strip : Text → Text
unfolding lstrip rstrip
strip s = rstrip (lstrip s)

-- `s[i:j]` for 0 <= i <= j.
unfoldable pub slice : Text → ℕ → ℕ → Text
slice s i j = take (j - i) (drop i s)

-- `s.zfill(n)`, which keeps a sign in front, and `{0:<n}`.
unfoldable pub zfill : ℕ → Text → Text
zfill n [] = replicate n b'0'
zfill n (c ∷ s) =
    if c == b'-' || c == b'+'
    then c ∷ replicate (n - 1 - length s) b'0' ++ s
    else replicate (n - length (c ∷ s)) b'0' ++ c ∷ s

unfoldable pub ljust : ℕ → Text → Text
ljust n s = s ++ replicate (n - length s) b' '

-- `sep.join(parts)`.
unfoldable pub join : Text → List Text → Text
join sep [] = []
join sep (s ∷ []) = s
join sep (s ∷ t ∷ ts) = s ++ sep ++ join sep (t ∷ ts)

-- `re.split('[p]+', s)`: a run of characters that meet `p` is one separator, and a run at an end
-- leaves an empty part there. `cur` is the part read so far, `run` says that a run is being read.
unfoldable pub split_runs : (ℕ → Bool) → Text → Text → Bool → List Text
split_runs p [] cur run = cur ∷ []
split_runs p (c ∷ s) cur run =
    let rest = split_runs p s (if p c then [] else cur ++ c ∷ []) (p c) in
    if p c && not run then cur ∷ rest else rest

-- `s.split(c)` at each character c.
unfoldable pub split_char : ℕ → Text → Text → List Text
split_char d [] cur = cur ∷ []
split_char d (c ∷ s) cur =
    let rest = split_char d s (if c == d then [] else cur ++ c ∷ []) in
    if c == d then cur ∷ rest else rest

abbrev nonempty : List Text → List Text
nonempty [] = []
nonempty ([] ∷ ts) = nonempty ts
nonempty ((c ∷ s) ∷ ts) = (c ∷ s) ∷ nonempty ts

-- `s.split()`: the words between white space.
unfoldable pub words : Text → List Text
unfolding split_runs is_space
words s = nonempty (split_runs is_space s [] false)

-- `re.split(r'[\s\,\;]+', s)`.
unfoldable pub is_separator : ℕ → Bool
unfolding is_space
is_separator c = is_space c || c == b',' || c == b';'

unfoldable pub split_args : Text → List Text
unfolding split_runs is_separator
split_args s = split_runs is_separator s [] false

-- Numbers in a base, most significant digit first. `fuel` is at least the number, which a division
-- by the base makes smaller.
unfoldable pub digit_char : ℕ → ℕ
digit_char d = if ltb d 10 then b'0' + d else b'a' + (d - 10)

unfoldable pub digits : ℕ → ℕ → ℕ → Text → Text
unfolding digit_char
digits base zero n out = out
digits base (suc fuel) n out =
    let rest = digits base fuel (n / base) (digit_char (n % base) ∷ out) in
    if n == 0 then out else rest

unfoldable pub print_base : ℕ → ℕ → Text
unfolding digits
print_base base n = if n == 0 then b'0' ∷ [] else digits base n n []

-- A Python 2 `long`, an integer outside the 64-bit `int`, is shown with a final L.
unfoldable pub long_mark : ℕ → ℕ → Text
long_mark limit n = if leb limit n then b'L' ∷ [] else []

-- `hex(n)`.
unfoldable pub hex : ℤ → Text
unfolding print_base long_mark
hex (pos n) = b'0' ∷ b'x' ∷ print_base 16 n ++ long_mark (2 ^ 63) n
hex (negsuc n) = b'-' ∷ b'0' ∷ b'x' ∷ print_base 16 (suc n) ++ long_mark (2 ^ 63 + 1) (suc n)

-- `str(n)`.
unfoldable pub decimal : ℤ → Text
unfolding print_base
decimal (pos n) = print_base 10 n
decimal (negsuc n) = b'-' ∷ print_base 10 (suc n)

-- `"{0:b}".format(n)`.
unfoldable pub binary : ℤ → Text
unfolding print_base
binary (pos n) = print_base 2 n
binary (negsuc n) = b'-' ∷ print_base 2 (suc n)

-- `int(s, base)` for a base of at most 36, of a text with no white space behind its sign.
unfoldable pub digit_value : ℕ → Option ℕ
digit_value c =
    if leb b'0' c && leb c b'9'
    then some (c - b'0')
    else if leb b'a' c && leb c b'z'
    then some (c - b'a' + 10)
    else if leb b'A' c && leb c b'Z'
    then some (c - b'A' + 10)
    else none

unfoldable pub scan : ℕ → Text → ℕ → Option ℕ
unfolding digit_value
scan base [] acc = some acc
scan base (c ∷ s) acc = elim (digit_value c) [
  | none ↦ none
  | some d ↦ (let rest = scan base s (acc * base + d) in if ltb d base then rest else none)
]

abbrev pub scan_some : ℕ → Text → Option ℕ
unfolding scan
scan_some base [] = none
scan_some base (c ∷ s) = scan base (c ∷ s) 0

abbrev drop_prefix : Text → Text
drop_prefix [] = []
drop_prefix (c ∷ []) = c ∷ []
drop_prefix (c ∷ d ∷ s) = if c == b'0' && (d == b'x' || d == b'X') then s else c ∷ d ∷ s

unfoldable pub magnitude : ℕ → Text → Option ℕ
unfolding scan
magnitude base s = scan_some base (if base == 16 then drop_prefix s else s)

unfoldable pub signed : ℕ → Text → Option ℤ
unfolding magnitude
signed base [] = none
signed base (c ∷ s) =
    if c == b'-'
    then Option.map neg_of (magnitude base s)
    else if c == b'+'
    then Option.map pos (magnitude base s)
    else Option.map pos (magnitude base (c ∷ s))

unfoldable pub int_of_text : ℕ → Text → Option ℤ
unfolding signed strip
int_of_text base s = signed base (strip s)
