-- ===== src/Command/History.antt =====
-- The command history: the last thirty commands, in order.
use idic.Prelude.{
  ℕ, zero, suc, ◌+◌, ◌-◌, ◌≤◌, ◌<◌, ◌≡◌, refl, Bool, true, List, [], ◌∷◌, ◌++◌, arith, leb, ap, ◌∙◌,
  if◌then◌else◌, length, drop, length-drop, length-snoc, le→leb, sym, append-nil, append_assoc,
}
use native.Mathlib.Decide.{dec_le}
use idic.Text.{Text}
use idic.Command.Handle.{history_size, remember}

-- The commands that are left of a sequence: its last thirty.
abbrev pub last_30 : List Text → List Text
last_30 h = drop (length h - history_size) h

-- Remembering one command after another, from an empty history.
unfoldable pub remember_all : List Text → List Text → List Text
remember_all h [] = h
remember_all h (c ∷ cs) = remember_all (remember c h) cs

-- The history never has more than thirty commands.
pub length-remember : (c : Text) (h : List Text) → length h ≤ 30 → length (remember c h) ≤ 30
unfolding remember
length-remember c h fits = grind (arith, length-snoc, length-drop)

drop-append_le :
    (n : ℕ) (xs : List Text) (c : Text)
    → n ≤ length xs
    → drop n (xs ++ c ∷ []) ≡ drop n xs ++ c ∷ []
drop-append_le zero xs c h = refl
drop-append_le (suc n) [] c h = absurd (omega arith)
drop-append_le (suc n) (x ∷ xs) c h = drop-append_le n xs c (omega arith)

drop-drop : (n : ℕ) (xs : List Text) → drop 1 (drop n xs) ≡ drop (suc n) xs
drop-drop zero xs = refl
drop-drop (suc n) [] = refl
drop-drop (suc n) (x ∷ xs) = drop-drop n xs

remember_full :
    (h : List Text) (c : Text) (n : ℕ)
    → length h ≡ n + 30
    → remember c (drop n h) ≡ drop (suc n) (h ++ c ∷ [])
unfolding remember
remember_full h c n e =
    let full : leb history_size (length (drop n h)) ≡ true =
      le→leb 30 (length (drop n h)) (omega (arith, length-drop n h)) in
    ap (λ (b : Bool). (if b then drop 1 (drop n h) else drop n h) ++ c ∷ []) full
    ∙ ap (λ (l : List Text). l ++ c ∷ []) (drop-drop n h)
    ∙ sym (drop-append_le (suc n) h c (omega arith))

remember_short : (h : List Text) (c : Text) → length h < 30 → remember c h ≡ h ++ c ∷ []
unfolding remember
remember_short h c k = ground arith

drop_none : (h : List Text) (n : ℕ) → n ≡ 0 → drop n h ≡ h
drop_none h zero e = refl
drop_none h (suc n) e = absurd (omega arith)

-- A command that is remembered by the last thirty of a sequence gives the last thirty of the longer
-- sequence.
remember-last_30 : (h : List Text) (c : Text) → remember c (last_30 h) ≡ last_30 (h ++ c ∷ [])
remember-last_30 h c = elim (dec_le 30 (length h)) [
  | yes full ↦
      let e : suc (length h - 30) ≡ length (h ++ c ∷ []) - 30 = omega (arith, length-snoc h c) in
      remember_full h c (length h - 30) (omega arith) ∙ ap (λ (n : ℕ). drop n (h ++ c ∷ [])) e
  | no short ↦
      ap (remember c) (drop_none h (length h - 30) (omega arith))
      ∙ remember_short h c (omega arith)
      ∙ sym (drop_none (h ++ c ∷ []) (length (h ++ c ∷ []) - 30) (omega (arith, length-snoc h c)))
]

remember_all-append : (h cs : List Text) → remember_all (last_30 h) cs ≡ last_30 (h ++ cs)
unfolding remember_all
remember_all-append h [] = ap last_30 (sym (append-nil h))
remember_all-append h (c ∷ cs) =
    ap (λ (l : List Text). remember_all l cs) (remember-last_30 h c)
    ∙ remember_all-append (h ++ c ∷ []) cs
    ∙ ap last_30 (append_assoc h (c ∷ []) cs)

-- From the empty history, the commands that are remembered are the last thirty, oldest first.
pub remember_all-last_30 : (cs : List Text) → remember_all [] cs ≡ last_30 cs
remember_all-last_30 cs = remember_all-append [] cs
