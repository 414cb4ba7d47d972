-- ===== src/Command/Typed.antt =====
-- What the commands (command.py) do to the objects: only four attributes change, and every value
-- keeps the type of its sensor's kind.
use idic.Prelude.{ℕ, ◌≡◌, some, get_elem?}
use idic.Text.{Text}
use idic.Model.{World, Sensor}
use idic.Sensor.Typed.{typed_law, KeepsAttributes, attributes_law, AllTyped}
use idic.Command.Handle.{handle_command}
use idic.Command.Kept.{handle_command-Lawful}

-- Every command, whether it returns or raises, keeps the types of the values: a threshold sensor
-- holds a number, a discrete one 0x and four characters (or the 0 of a failed first reading), and
-- one of no kind holds nothing.
pub handle_command-AllTyped :
    (cmd : Text) (w : World) → AllTyped w → AllTyped (handle_command cmd w).1
unfolding typed_law
handle_command-AllTyped cmd w h = handle_command-Lawful typed_law cmd w h

-- Every object is the one of an earlier state, but for those attributes.
abbrev pub AllKeep : World → World → Type 0
AllKeep v w = (a : ℕ) (s : Sensor) → get_elem? w.heap a ≡ some s → KeepsAttributes v a s

pub handle_command-AllKeep :
    (v : World) (cmd : Text) (w : World) → AllKeep v w → AllKeep v (handle_command cmd w).1
unfolding attributes_law
handle_command-AllKeep v cmd w h = handle_command-Lawful (attributes_law v) cmd w h
