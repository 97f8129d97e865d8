-- ===== src/Input/Keyboard/Handler.antt =====
-- The ring of keys and the interrupt handler.
use spike_os.Prelude.{
  ℕ, ◌%◌, ◌≡◌, refl, Bool, true, false, List, [], ◌∷◌, ◌++◌, ◌==◌, ltb, if◌then◌else◌, arith, inl,
  inr, Bool-cases, length, not, ◌&&◌, ◌||◌, leb,
}
use spike_os.Prelude.Ring.{
  next_slot, IsRing, queued, queued-put, put-IsRing, length-queued_full, length-queued_part,
}
use spike_os.Wait.{States, wake_up_one}
use spike_os.Input.{KeyEvent, no_key, is_key, Event, Events, event_key, event_push_key}
use spike_os.Input.Queue.{IsEvents, events, newest, event_push-newest}
use spike_os.Input.Keyboard.{Keyboard, kbd_push, push_key, keyboard_irq, decode, release_key}

abbrev pub IsKeyboard : Keyboard → Type 0
IsKeyboard k = IsRing no_key 128 k.buf k.head k.tail

abbrev pub keys : Keyboard → List KeyEvent
keys k = queued no_key 128 k.buf k.head k.tail

-- The ring of keys takes a key as long as it holds fewer than 127.
abbrev pub keep_key : KeyEvent → List KeyEvent → List KeyEvent
keep_key e xs = if ltb (length xs) 127 then xs ++ (e ∷ []) else xs

kbd_push-keep :
    (e : KeyEvent) (k : Keyboard)
    → IsKeyboard k
    → IsKeyboard (kbd_push e k) × (keys (kbd_push e k) ≡ keep_key e (keys k))
unfolding kbd_push
kbd_push-keep e k r = elim (Bool-cases (next_slot 128 k.head == k.tail)) [
  | inl full ↦
      let size = length-queued_full no_key 128 k.buf k.head k.tail r (ground (arith, full)) in
      let no_room : ltb (length (keys k)) 127 ≡ false = ground (arith, size) in
      rw (full, no_room) (r, refl)
  | inr room ↦
      let size = length-queued_part no_key 128 k.buf k.head k.tail r (ground (arith, room)) in
      let some_room : ltb (length (keys k)) 127 ≡ true = ground (arith, size) in
      rw (room, some_room)
        (
          put-IsRing no_key 128 k.buf k.head k.tail e r,
          queued-put no_key 128 k.buf k.head k.tail e r (ground (arith, room)),
        )
]

-- The key of a byte that is neither a prefix, nor a release, nor ctrl or shift.
unfoldable pub is_code : ℕ → Bool
is_code sc = ltb sc 128 && not (sc == 0x1D) && not ((sc == 0x2A) || (sc == 0x36))

abbrev pub sends : Keyboard → ℕ → Bool
sends k sc = is_code sc && is_key (decode k sc).type

-- The event that a key becomes.
abbrev pub key_event : (now : ℕ) → KeyEvent → Event
key_event now e = record { timestamp = now; payload = event_key true e.type e.ch }

-- `is_code` along the tests of the handler.
tests_code :
    (sc : ℕ)
    → ((sc == 0xE0) ≡ true → is_code sc ≡ false)
      × (leb 128 sc ≡ true → is_code sc ≡ false)
      × ((sc == 0x1D) ≡ true → is_code sc ≡ false)
      × (((sc == 0x2A) || (sc == 0x36)) ≡ true → is_code sc ≡ false)
      × (leb 128 sc ≡ false
          → (sc == 0x1D) ≡ false
          → ((sc == 0x2A) || (sc == 0x36)) ≡ false
          → is_code sc ≡ true)
unfolding is_code
tests_code sc = (
  λ h. ground arith,
  λ h. ground arith,
  λ h. ground arith,
  λ h. ground arith,
  λ h k l. ground arith,
)

-- The rings of a keyboard and an event queue behind a byte.
abbrev pub Queued : (now sc : ℕ) → Keyboard → Events → Keyboard × Events × States → Type 0
Queued now sc k ev (k', ev', ps') =
    IsKeyboard k'
    × IsEvents ev'
    × (keys k' ≡ (if sends k sc then keep_key (decode k sc) (keys k) else keys k))
    × (events ev' ≡ (
        if sends k sc
        then newest 255 (events ev ++ (key_event now (decode k sc) ∷ []))
        else events ev))

module _ (now sc : ℕ) (k : Keyboard) (ev : Events) (ps : States) (r : IsKeyboard k)
    (q : IsEvents ev) where
  -- A byte that only changes what is held.
  quiet :
      (k' : Keyboard)
      → k'.buf ≡ k.buf
      → k'.head ≡ k.head
      → k'.tail ≡ k.tail
      → is_code sc ≡ false
      → Queued now sc k ev (k', ev, ps)
  quiet k' b h t silent = rw (b, h, t, silent) (r, q, refl, refl)

  released :
      (code : ℕ)
      → ((release_key code k).buf ≡ k.buf)
        × ((release_key code k).head ≡ k.head)
        × ((release_key code k).tail ≡ k.tail)
  unfolding release_key
  released code = (ground arith, ground arith, ground arith)

  pushed :
      is_code sc ≡ true
      → Queued now sc k ev (push_key now (decode k sc) (record k { extended = false }) ev ps)
  unfolding push_key event_push_key
  pushed code = elim (Bool-cases (is_key (decode k sc).type)) [
    | inr other ↦ rw (code, other) (r, q, refl, refl)
    | inl key ↦
        let (kept, same) = kbd_push-keep (decode k sc) (record k { extended = false }) r in
        let (kept', same') =
          event_push-newest (key_event now (decode k sc)) ev
            (wake_up_one (kbd_push (decode k sc) (record k { extended = false })).wq ps).2 q in
        rw (code, key) (kept, kept', same, same')
  ]

  -- `keyboard_irq` of any byte keeps both rings well formed. Where the byte is the code of a key, the key goes
  -- behind the others in the ring of keys, unless 127 wait there, and its event behind the others in the event
  -- queue, of which the 255 newest stay; any other byte adds nothing to either.
  pub keyboard_irq-Queued : Queued now sc k ev (keyboard_irq now sc k ev ps)
  unfolding keyboard_irq
  keyboard_irq-Queued =
      let (a, b, c, d, code) = tests_code sc in
      elim (Bool-cases (sc == 0xE0)) [
        | inl prefix ↦ rw prefix (quiet (record k { extended = true }) refl refl refl (a prefix))
        | inr other ↦ elim (Bool-cases (leb 128 sc)) [
          | inl up ↦
              let (same, h, t) = released (sc % 128) in
              rw (other, up) (quiet (release_key (sc % 128) k) same h t (b up))
          | inr down ↦ elim (Bool-cases (sc == 0x1D)) [
            | inl ctrl ↦
                rw (other, down, ctrl)
                  (quiet (record k { ctrl_held = true; extended = false }) refl refl refl (c ctrl))
            | inr no_ctrl ↦ elim (Bool-cases ((sc == 0x2A) || (sc == 0x36))) [
              | inl shift ↦
                  rw (other, down, no_ctrl, shift)
                    (quiet (record k { shift_held = true; extended = false }) refl refl refl
                      (d shift))
              | inr plain ↦ rw (other, down, no_ctrl, plain) (pushed (code down no_ctrl plain))
            ]
          ]
        ]
      ]
