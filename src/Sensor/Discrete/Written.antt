-- ===== src/Sensor/Discrete/Written.antt =====
-- What `set_state` (sensor.py) writes: the text, bit by bit, and the command.
use idic.Prelude.{
  ℕ, ◌+◌, ◌==◌, if◌then◌else◌, ◌≤◌, ◌<◌, ◌≡◌, ap, ◌∙◌, some, [], ◌∷◌, ◌++◌, set, get_elem?, arith,
}
use idic.Prelude.Int.{pos}
use idic.Bits.Single.{bit}
use idic.Text.{Text}
use idic.Model.{Sensor, World, text, ok}
use idic.Common.Sending.{IsAnswering}
use idic.Sensor.Attributes.{discrete, kind_of}
use idic.Sensor.Discrete.{bit_line, value_text_of, set_state}
use idic.Sensor.Discrete.Words.{
  reads, with_bit-bit, lower_byte_first, value_text_of-lower_byte_first,
}
use idic.Sensor.Discrete.State.{set_state_lem}

-- For a discrete sensor with a value of sixteen bits, a state id of 0 to 14 and a bit of 0 or 1: the
-- number that has that bit in the place of the old one, and all other bits as they were, is stored as
-- 0x and four digits, the lower byte first; one command with the state id and the bit is sent, and
-- nothing else changes.
pub set_state_written :
    (a : ℕ) (s : Sensor) (old : Text) (mc lun kind n i b : ℕ) (w : World)
    → IsAnswering w.outside
    → get_elem? w.heap a ≡ some s
    → s.mc ≡ some mc
    → s.lun ≡ some lun
    → s.event_type ≡ some kind
    → kind_of kind ≡ discrete
    → s.value ≡ text old
    → reads old ≡ some (pos n)
    → n < 65536
    → i ≤ 14
    → b ≤ 1
    → (m : ℕ) × ((j : ℕ) → bit j m ≡ (if i == j then b else bit j n))
      × (set_state a (pos i) (pos b) w ≡ (
        ok tt,
        record w {
          heap = set w.heap a (record s { value = text (lower_byte_first m) });
          sent = w.sent ++ bit_line mc lun s.id (i, b) ∷ [];
          sessions = w.sessions + 1;
        },
      ))
set_state_written a s old mc lun kind n i b w ans found e1 e2 e3 e4 e5 e6 hn hi hb =
    let (m, e, small, bits) = with_bit-bit n i b hn (omega (arith, hi)) hb in
    (
      m,
      bits,
      set_state_lem a s kind w found e3 e4 old mc lun (pos n) ans e1 e2 e5 e6 (pos i) (pos b)
            (ground arith) (ground arith)
          ∙ ap
              (λ t. (
                ok tt,
                record w {
                  heap = set w.heap a (record s { value = text t });
                  sent = w.sent ++ bit_line mc lun s.id (i, b) ∷ [];
                  sessions = w.sessions + 1;
                },
              ))
              (ap value_text_of e ∙ value_text_of-lower_byte_first m small),
    )
