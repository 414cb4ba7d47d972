-- ===== src/Ssh/Lines.antt =====
-- The lines of a response (sshsrv.py) against its text.
use idic.Prelude.{
  ℕ, ◌≡◌, refl, sym, ap, ◌∙◌, Bool, true, false, not, ◌&&◌, List, [], ◌∷◌, ◌++◌, map, ◌==◌, ==_iff,
  Bool-cases, append_assoc, arith, inl, inr,
}
use idic.Text.{Text, split_char}
use idic.Ssh.{Output, write, writeline, response_lines}

abbrev newline : ℕ
newline = 10

-- What the user sees of some output: the texts, with a line end between each two.
abbrev text_of : Output → Text
text_of (write t) = t
text_of (writeline t) = t

abbrev behind : List Output → Text
behind [] = []
behind (o ∷ rest) = newline ∷ text_of o ++ behind rest

abbrev pub printed : List Output → Text
printed [] = []
printed (o ∷ rest) = text_of o ++ behind rest

-- Every part is a line.
abbrev no_newline : Text → Bool
no_newline [] = true
no_newline (c ∷ t) = not (c == newline) && no_newline t

abbrev pub all_lines : List Output → Bool
all_lines [] = true
all_lines (write t ∷ rest) = false
all_lines (writeline t ∷ rest) = no_newline t && all_lines rest

behind-split :
    (t cur : Text)
    → behind (map writeline (split_char newline t cur))
      ≡ newline ∷ printed (map writeline (split_char newline t cur))
unfolding split_char
behind-split [] cur = refl
behind-split (c ∷ t) cur = elim (Bool-cases (c == newline)) [
  | inl ends ↦ rw ends refl
  | inr other ↦ rw other (behind-split t (cur ++ c ∷ []))
]

printed-split : (t cur : Text) → printed (map writeline (split_char newline t cur)) ≡ cur ++ t
unfolding split_char
printed-split [] cur = refl
printed-split (c ∷ t) cur = elim (Bool-cases (c == newline)) [
  | inl ends ↦ rw ends (
      ap (λ l. cur ++ l)
        (behind-split t []
          ∙ ap (λ l. newline ∷ l) (printed-split t [])
          ∙ ap (λ d. d ∷ t) (sym ((==_iff c newline).0 ends))))
  | inr other ↦ rw other (printed-split t (cur ++ c ∷ []) ∙ append_assoc cur (c ∷ []) t)
]

no_newline-snoc :
    (t : Text) (c : ℕ)
    → no_newline t ≡ true
    → (c == newline) ≡ false
    → no_newline (t ++ c ∷ []) ≡ true
no_newline-snoc [] c h e = rw e refl
no_newline-snoc (d ∷ t) c h e = ground (arith, no_newline-snoc t c)

all_lines-split :
    (t cur : Text)
    → no_newline cur ≡ true
    → all_lines (map writeline (split_char newline t cur)) ≡ true
unfolding split_char
all_lines-split [] cur h = rw h refl
all_lines-split (c ∷ t) cur h = elim (Bool-cases (c == newline)) [
  | inl ends ↦ rw (ends, h) (all_lines-split t [] refl)
  | inr other ↦ rw other (all_lines-split t (cur ++ c ∷ []) (no_newline-snoc cur c h other))
]

pub printed-response_lines : (t : Text) → printed (response_lines t) ≡ t
unfolding response_lines
printed-response_lines [] = refl
printed-response_lines (c ∷ t) = printed-split (c ∷ t) []

pub all_lines-response_lines : (t : Text) → all_lines (response_lines t) ≡ true
unfolding response_lines
all_lines-response_lines [] = refl
all_lines-response_lines (c ∷ t) = all_lines-split (c ∷ t) [] refl
