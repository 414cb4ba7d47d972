-- ===== src/Ssh/Quit.antt =====
-- How a session (sshsrv.py) ends.
use idic.Prelude.{◌≡◌, true, List, [], ◌∷◌, ◌++◌, ap, ◌∙◌, sym}
use idic.Text.{Text, words, codes}
use idic.Model.{World}
use idic.Ssh.{
  Input, undecodable, line, Output, write, writeline, prompt, is_quit, take_line, session,
}

-- The first word of a line is exit or quit.
pub record Quits (q : Text) : Type 0 where
  pub cmd : Text
  pub args : List Text
  pub split : words q ≡ cmd ∷ args
  pub ends : is_quit cmd ≡ true

take_line_quit :
    (q cmd : Text) (args : List Text) (rest : World → List Output × World) (w : World)
    → is_quit cmd ≡ true
    → take_line q (cmd ∷ args) rest w ≡ (write prompt ∷ writeline (codes "Quit!") ∷ [], w)
unfolding take_line
take_line_quit q cmd args rest w e = rw e

session_at_quit :
    (q : Text) (rest : List Input) (w : World)
    → Quits q
    → session (line q ∷ rest) w ≡ (write prompt ∷ writeline (codes "Quit!") ∷ [], w)
unfolding session
session_at_quit q rest w h =
    ap (λ ws. take_line q ws (session rest) w) h.split
    ∙ take_line_quit q h.cmd h.args (session rest) w h.ends

-- Nothing behind a line that quits is read, runs or shows anything, whatever lines precede it.
pub session-Quits :
    (before : List Input) (q : Text) (rest : List Input) (w : World)
    → Quits q
    → session (before ++ line q ∷ rest) w ≡ session (before ++ line q ∷ []) w
unfolding session
session-Quits [] q rest w h = session_at_quit q rest w h ∙ sym (session_at_quit q [] w h)
session-Quits (undecodable ∷ before) q rest w h =
    ap (λ (p : List Output × World). (write prompt ∷ p.0, p.1)) (session-Quits before q rest w h)
session-Quits (line c ∷ before) q rest w h =
    λ i. take_line c (words c) (λ u. session-Quits before q rest u h i) w
