-- ===== src/Input.antt =====
-- Input events: the queue of kernel/drivers/event.c and the keyboard that feeds it.
pub mod Queue
pub mod Keyboard
pub mod Scancodes
mod Tests
use spike_os.Prelude.{
  ℕ, ◌+◌, ◌%◌, Bool, true, false, Option, none, some, List, [], ◌∷◌, ◌==◌, if◌then◌else◌, get_or,
  set, replicate,
}
use spike_os.Prelude.Int.{ℤ}
use spike_os.Prelude.Ring.{next_slot}
use spike_os.Wait.{WaitQueue, States, sleep_on, wake_up_one}

-- `key_type_t`, the values that the handler sends.
pub data KeyType : Type 0 where
  key_none key_char key_backspace key_delete key_enter key_left key_right key_up key_down : KeyType
  key_shift_down key_shift_up key_ctrl_c key_ctrl_s key_ctrl_x key_ctrl_k key_page_up : KeyType
  key_page_down key_home key_end key_insert key_tab key_ctrl_v key_ctrl_a key_ctrl_q : KeyType
  key_ctrl_plus key_ctrl_minus key_ctrl_z key_ctrl_shift_z : KeyType

abbrev pub is_key : KeyType → Bool
is_key k = elim k [ key_none ↦ false | _ ↦ true ]

-- `key_event_t`.
pub record KeyEvent : Type 0 where
  pub type : KeyType
  pub ch : ℕ

abbrev pub no_key : KeyEvent
no_key = record { type = key_none; ch = 0 }

-- `event_t`: the type, and the fields of the union that go with it.
pub data Payload : Type 0 where
  event_none : Payload
  event_key : (pressed : Bool) (key : KeyType) (ch : ℕ) → Payload
  event_mouse_move : (x y dx dy : ℤ) → Payload
  event_mouse_button : (x y : ℤ) (button pressed : ℕ) → Payload
  event_mouse_scroll : (x y dz : ℤ) → Payload

pub record Event : Type 0 where
  pub timestamp : ℕ
  pub payload : Payload

abbrev pub no_event : Event
no_event = record { timestamp = 0; payload = event_none }

-- EVENT_BUF_SIZE.
abbrev pub event_buf_size : ℕ
event_buf_size = 256

pub record Events : Type 0 where
  pub buf : List Event
  pub head : ℕ
  pub tail : ℕ
  pub wq : WaitQueue

unfoldable pub event_init : Events → Events
event_init q = record q { head = 0; tail = 0 }

-- The write of `event_push`: a full ring first drops its oldest event.
unfoldable pub put_event : Event → Events → Events
put_event e q =
    let next = next_slot event_buf_size q.head in
    record q {
      buf = set q.buf q.head e;
      head = next;
      tail = if next == q.tail then next_slot event_buf_size q.tail else q.tail;
    }

unfoldable pub event_push : Event → Events → States → Events × States
event_push e q ps =
    let q1 = put_event e q in
    let (count, wq, ps') = wake_up_one q1.wq ps in (record q1 { wq = wq }, ps')

-- `event_poll`: EVENT_NONE from an empty ring.
unfoldable pub event_poll : Events → Event × Events
event_poll q =
    if q.head == q.tail
    then (no_event, q)
    else (get_or q.buf q.tail no_event, record q { tail = next_slot event_buf_size q.tail })

-- A pass of `event_wait` by a process: an event, or a sleep.
pub data EventPass : Type 0 where
  got_event : Event → Events → EventPass
  sleeps : Events → States → EventPass

abbrev pub is_event : Payload → Bool
is_event p = elim p [ event_none ↦ false | _ ↦ true ]

abbrev pub sleep_for_event : Option ℕ → Events → States → EventPass
sleep_for_event me q ps = sleeps (record q { wq = (sleep_on me q.wq ps).0 }) (sleep_on me q.wq ps).1

unfoldable pub event_wait_pass : Option ℕ → Events → States → EventPass
event_wait_pass me q ps =
    let (e, q') = event_poll q in
    if is_event e.payload then got_event e q' else sleep_for_event me q' ps

unfoldable pub event_push_key :
    (now : ℕ) → (pressed : Bool) → KeyType → (ch : ℕ) → Events → States → Events × States
event_push_key now pressed key ch q ps =
    event_push (record { timestamp = now; payload = event_key pressed key ch }) q ps

unfoldable pub event_push_mouse_move :
    (now : ℕ) → (x y dx dy : ℤ) → Events → States → Events × States
event_push_mouse_move now x y dx dy q ps =
    event_push (record { timestamp = now; payload = event_mouse_move x y dx dy }) q ps

unfoldable pub event_push_mouse_button :
    (now : ℕ) → (x y : ℤ) → (button pressed : ℕ) → Events → States → Events × States
event_push_mouse_button now x y button pressed q ps =
    event_push (record { timestamp = now; payload = event_mouse_button x y button pressed }) q ps

unfoldable pub event_push_mouse_scroll :
    (now : ℕ) → (x y dz : ℤ) → Events → States → Events × States
event_push_mouse_scroll now x y dz q ps =
    event_push (record { timestamp = now; payload = event_mouse_scroll x y dz }) q ps
