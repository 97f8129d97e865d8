-- ===== src/Input/Keyboard.antt =====
-- The keyboard of kernel/drivers/keyboard.c: the decoding of scan codes and the ring of key events.
pub mod Handler
use spike_os.Prelude.{
  ℕ, ◌+◌, ◌-◌, ◌%◌, ◌≡◌, Bool, true, false, not, ◌||◌, Option, none, some, List, [], ◌∷◌, ◌==◌, ltb,
  leb, if◌then◌else◌, get_or, set, replicate,
}
use spike_os.Prelude.Ring.{next_slot}
use spike_os.Wait.{WaitQueue, States, sleep_on, wake_up_one}
use spike_os.Input.{
  KeyType, KeyEvent, key_none, key_char, key_backspace, key_delete, key_enter, key_left, key_right,
  key_up, key_down, key_ctrl_c, key_ctrl_s, key_ctrl_x, key_ctrl_k, key_page_up, key_page_down,
  key_home, key_end, key_insert, key_tab, key_ctrl_v, key_ctrl_a, key_ctrl_q, key_ctrl_plus,
  key_ctrl_minus, key_ctrl_z, key_ctrl_shift_z, no_key, is_key, Events, event_push_key,
}
use spike_os.Input.Scancodes.{scancode_to_ascii, scancode_to_ascii_shift}

-- KBD_BUF_SIZE.
abbrev pub kbd_buf_size : ℕ
kbd_buf_size = 128

pub record Keyboard : Type 0 where
  pub buf : List KeyEvent
  pub head : ℕ
  pub tail : ℕ
  pub ctrl_held : Bool
  pub shift_held : Bool
  pub extended : Bool
  pub wq : WaitQueue

abbrev pub fresh_keyboard : Keyboard
fresh_keyboard = record {
  buf = replicate kbd_buf_size no_key;
  head = 0;
  tail = 0;
  ctrl_held = false;
  shift_held = false;
  extended = false;
  wq = [];
}

-- `kbd_push`: a full ring drops the new event.
unfoldable pub kbd_push : KeyEvent → Keyboard → Keyboard
kbd_push e k =
    if next_slot kbd_buf_size k.head == k.tail
    then k
    else record k { buf = set k.buf k.head e; head = next_slot kbd_buf_size k.head }

-- `keyboard_get_event`: KEY_NONE from an empty ring.
unfoldable pub keyboard_get_event : Keyboard → KeyEvent × Keyboard
keyboard_get_event k =
    if k.head == k.tail
    then (no_key, k)
    else (get_or k.buf k.tail no_key, record k { tail = next_slot kbd_buf_size k.tail })

-- A pass of `keyboard_get_event_blocking` by a process: a key, or a sleep.
pub data KeyPass : Type 0 where
  got_key : KeyEvent → Keyboard → KeyPass
  sleeps : Keyboard → States → KeyPass

abbrev pub sleep_for_key : Option ℕ → Keyboard → States → KeyPass
sleep_for_key me k ps = sleeps (record k { wq = (sleep_on me k.wq ps).0 }) (sleep_on me k.wq ps).1

unfoldable pub get_event_pass : Option ℕ → Keyboard → States → KeyPass
get_event_pass me k ps =
    let (e, k') = keyboard_get_event k in
    if is_key e.type then got_key e k' else sleep_for_key me k' ps

-- The keys behind 0xE0, with ctrl, and on their own.
unfoldable pub extended_key : ℕ → KeyType
extended_key sc =
    if sc == 0x48
    then key_up
    else if sc == 0x50
    then key_down
    else if sc == 0x4B
    then key_left
    else if sc == 0x4D
    then key_right
    else if sc == 0x49
    then key_page_up
    else if sc == 0x51
    then key_page_down
    else if sc == 0x47
    then key_home
    else if sc == 0x4F
    then key_end
    else if sc == 0x52
    then key_insert
    else if sc == 0x53
    then key_delete
    else key_none

unfoldable pub ctrl_key : (shift : Bool) → ℕ → KeyType
ctrl_key shift sc =
    if sc == 0x2E
    then key_ctrl_c
    else if sc == 0x1F
    then key_ctrl_s
    else if sc == 0x2D
    then key_ctrl_x
    else if sc == 0x25
    then key_ctrl_k
    else if sc == 0x2F
    then key_ctrl_v
    else if sc == 0x1E
    then key_ctrl_a
    else if sc == 0x10
    then key_ctrl_q
    else if sc == 0x0D
    then key_ctrl_plus
    else if sc == 0x0C
    then key_ctrl_minus
    else if sc == 0x2C
    then (if shift then key_ctrl_shift_z else key_ctrl_z)
    else key_none

-- The character of a code, or none.
unfoldable pub char_key : ℕ → KeyEvent
char_key c = if c == 0 then no_key else record { type = key_char; ch = c }

unfoldable pub plain_key : (shift : Bool) → ℕ → KeyEvent
plain_key shift sc =
    if sc == 0x0E
    then record { type = key_backspace; ch = 0 }
    else if sc == 0x1C
    then record { type = key_enter; ch = 0 }
    else if sc == 0x0F
    then record { type = key_tab; ch = 0 }
    else if ltb sc 128
    then char_key (get_or (if shift then scancode_to_ascii_shift else scancode_to_ascii) sc 0)
    else no_key

unfoldable pub decode : Keyboard → ℕ → KeyEvent
decode k sc =
    if k.extended
    then record { type = extended_key sc; ch = 0 }
    else if k.ctrl_held
    then record { type = ctrl_key k.shift_held sc; ch = 0 }
    else plain_key k.shift_held sc

-- A release: bit 7 is set.
unfoldable pub release_key : ℕ → Keyboard → Keyboard
release_key code k =
    if (code == 0x2A) || (code == 0x36)
    then record k { shift_held = false; extended = false }
    else if code == 0x1D
    then record k { ctrl_held = false; extended = false }
    else record k { extended = false }

-- What the keyboard and the event queue get of a key, and who is woken.
unfoldable pub push_key :
    (now : ℕ) → KeyEvent → Keyboard → Events → States → Keyboard × Events × States
push_key now e k ev ps =
    let k1 = kbd_push e k in
    let (count, wq, ps1) = wake_up_one k1.wq ps in
    let (ev', ps2) = event_push_key now true e.type e.ch ev ps1 in
    if is_key e.type then (record k1 { wq = wq }, ev', ps2) else (k, ev, ps)

-- `keyboard_irq` of the byte that the controller has.
unfoldable pub keyboard_irq : (now sc : ℕ) → Keyboard → Events → States → Keyboard × Events × States
keyboard_irq now sc k ev ps =
    if sc == 0xE0
    then (record k { extended = true }, ev, ps)
    else if leb 128 sc
    then (release_key (sc % 128) k, ev, ps)
    else if sc == 0x1D
    then (record k { ctrl_held = true; extended = false }, ev, ps)
    else if (sc == 0x2A) || (sc == 0x36)
    then (record k { shift_held = true; extended = false }, ev, ps)
    else push_key now (decode k sc) (record k { extended = false }) ev ps
