-- ===== src/Command/Refusals.antt =====
-- Commands that the code cannot carry out.
use idic.Prelude.{ℕ, ◌≤◌, ◌≡◌, some, List, ◌∷◌, arith, if◌then◌else◌, length}
use idic.Prelude.Int.{ℤ, pos}
use idic.Text.{Text, int_of_text}
use idic.Sel.{between, OemClass}
use idic.Model.{World, err, attribute_error}
use idic.Command.SelCommands.{set_oem_sel, set_oem_of_type, set_oem_bytes, parse_hex_list}

set_oem_bytes_raises :
    (c : OemClass) (t : ℤ) (args : List Text) (ns : List ℤ) (w : World)
    → parse_hex_list args ≡ some ns
    → set_oem_bytes c t args w ≡ (err attribute_error, w)
unfolding set_oem_bytes
set_oem_bytes_raises c t args ns w e = ground arith

-- `sel set oem` with a record type from 0xC0 to 0xFF and the number of bytes that the type wants,
-- all of them hexadecimal numbers, raises AttributeError and sends nothing.
pub set_oem_sel_raises :
    (record_type : Text) (n : ℕ) (args : List Text) (ns : List ℤ) (w : World)
    → int_of_text 16 record_type ≡ some (pos n)
    → 0xC0 ≤ n
    → n ≤ 0xFF
    → length args ≡ (if between 0xC0 0xDF (pos n) then 6 else 13)
    → parse_hex_list args ≡ some ns
    → set_oem_sel (record_type ∷ args) w ≡ (err attribute_error, w)
unfolding set_oem_sel set_oem_of_type
set_oem_sel_raises record_type n args ns w e low high size bytes = ground (
  arith,
  set_oem_bytes_raises OemClass.c0_df (pos n) args ns w bytes,
  set_oem_bytes_raises OemClass.e0_ff (pos n) args ns w bytes,
)
