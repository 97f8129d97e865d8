-- ===== src/Input/Tests.antt =====
-- Keys typed on a fresh keyboard.
use spike_os.Prelude.{◌≡◌, refl, true, [], arith, replicate}
use spike_os.Input.{Events, no_event, key_char}
use spike_os.Input.Keyboard.{Keyboard, fresh_keyboard, keyboard_irq, decode, plain_key, char_key}
use spike_os.Input.Keyboard.Handler.{Queued, keyboard_irq-Queued}

abbrev no_events : Events
no_events = record { buf = replicate 256 no_event; head = 0; tail = 0; wq = [] }

-- A shift, and the key of the letter.
abbrev shifted : Keyboard
shifted = record fresh_keyboard { shift_held = true }

shifted_a : decode shifted 0x1E ≡ record { type = key_char; ch = 65 }
unfolding decode plain_key char_key
shifted_a = refl

-- Witnesses of the properties.
keyboard_irq-Queued_example :
    Queued 5 0x1E shifted no_events (keyboard_irq 5 0x1E shifted no_events [])
keyboard_irq-Queued_example =
    keyboard_irq-Queued 5 0x1E shifted no_events []
      (record { room = refl; head_in = omega arith; tail_in = omega arith })
      (record { room = refl; head_in = omega arith; tail_in = omega arith })
