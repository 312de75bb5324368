-- ===== src/Scheduler/Hardware.antt =====
-- The hardware part of `scheduler_init` in kernel/scheduler.c: the interrupt table, and the bytes
-- that are written to the ports of the interrupt controllers and the timer, the newest first.
-- `irq0_stub` and the address of the table are parameters. The masks that are read and dropped are
-- left out.
use seng21213_os_se.Base.{
  ℕ, zero, suc, ◌+◌, ◌-◌, ◌*◌, ◌/◌, ◌%◌, ◌^◌, ◌<◌, ◌≡◌, ◌≢◌, refl, List, [], ◌∷◌, arith, ◌==◌, leb,
  ltb, ◌&&◌, if◌then◌else◌, update,
}

-- `idt_entry_t`
pub record Gate : Type 0 where
  pub offset_low : ℕ
  pub selector : ℕ
  pub zero_byte : ℕ
  pub flags : ℕ
  pub offset_high : ℕ

-- `idt`, the limit and the base that `lidt` loads, and the log of the ports.
pub record Hardware : Type 0 where
  pub idt : ℕ → Gate
  pub limit : ℕ
  pub base : ℕ
  pub ports : List (ℕ × ℕ)

abbrev outb : ℕ → ℕ → Hardware → Hardware
outb port value h = record h { ports = (port, value) ∷ h.ports }

abbrev io_wait : Hardware → Hardware
io_wait h = outb 0x80 0 h

-- A byte, and the wait that follows it.
abbrev outb_wait : ℕ → ℕ → Hardware → Hardware
outb_wait port value h = io_wait (outb port value h)

unfoldable pub idt_set_gate : ℕ → ℕ → ℕ → ℕ → Hardware → Hardware
idt_set_gate number handler selector flags h = record h {
  idt = update h.idt number (record {
    offset_low = handler % 2 ^ 16;
    selector = selector;
    zero_byte = 0;
    flags = flags;
    offset_high = handler / 2 ^ 16 % 2 ^ 16;
  });
}

abbrev pub no_gate : Gate
no_gate = record { offset_low = 0; selector = 0; zero_byte = 0; flags = 0; offset_high = 0 }

-- `n` rounds of the loop of `idt_init`, from gate `i` on.
unfoldable pub clear_gates : ℕ → ℕ → (ℕ → Gate) → ℕ → Gate
clear_gates zero i idt = idt
clear_gates (suc n) i idt = clear_gates n (i + 1) (update idt i no_gate)

unfoldable pub idt_init : ℕ → ℕ → Hardware → Hardware
unfolding idt_set_gate
idt_init irq0_stub address h =
    let cleared = record h { idt = clear_gates 256 0 h.idt } in
    let s = idt_set_gate 32 irq0_stub 0x08 0x8E cleared in
    record s { limit = 256 * 8 - 1; base = address }

unfoldable pub pic_remap : Hardware → Hardware
pic_remap h =
    let h1 = outb_wait 0xA0 0x11 (outb_wait 0x20 0x11 h) in
    let h2 = outb_wait 0xA1 0x28 (outb_wait 0x21 0x20 h1) in
    let h3 = outb_wait 0xA1 0x02 (outb_wait 0x21 0x04 h2) in
    let h4 = outb_wait 0xA1 0x01 (outb_wait 0x21 0x01 h3) in outb 0xA1 0xFF (outb 0x21 0xFE h4)

unfoldable pub pit_init : Hardware → Hardware
pit_init h =
    let divisor = 1193182 / 100 in
    outb 0x40 (divisor / 2 ^ 8 % 2 ^ 8) (outb 0x40 (divisor % 2 ^ 8) (outb 0x43 0x36 h))

-- The calls of `scheduler_init` behind its variables.
unfoldable pub hardware_init : ℕ → ℕ → Hardware → Hardware
hardware_init irq0_stub address h = pit_init (pic_remap (idt_init irq0_stub address h))

-- The address that the processor jumps to.
abbrev pub handler_of : Gate → ℕ
handler_of g = g.offset_high * 2 ^ 16 + g.offset_low

-- The bytes written to a port, the newest first.
abbrev pub written_to : ℕ → List (ℕ × ℕ) → List ℕ
written_to port [] = []
written_to port ((p, v) ∷ log) = if p == port then v ∷ written_to port log else written_to port log

clear_gates_lem :
    (n i : ℕ) (idt : ℕ → Gate) (a : ℕ)
    → clear_gates n i idt a ≡ (if leb i a && ltb a (i + n) then no_gate else idt a)
unfolding clear_gates
clear_gates_lem zero i idt a = ground arith
clear_gates_lem (suc n) i idt a = ground (arith, clear_gates_lem n (i + 1) (update idt i no_gate) a)

-- Whatever the table held, the setup leaves gate 32 as a present 32-bit interrupt gate of the code
-- segment whose address is that of `irq0_stub`, and the other 255 gates empty.
pub hardware_init_lem :
    (irq0_stub address : ℕ) (h : Hardware)
    → irq0_stub < 2 ^ 32
    → let h' = hardware_init irq0_stub address h in
      (handler_of (h'.idt 32) ≡ irq0_stub)
      × ((h'.idt 32).selector ≡ 0x08)
      × ((h'.idt 32).flags ≡ 0x8E)
      × ((i : ℕ) → i < 256 → i ≢ 32 → h'.idt i ≡ no_gate)
unfolding hardware_init pit_init pic_remap idt_init idt_set_gate
hardware_init_lem irq0_stub address h small =
    (omega arith, refl, refl, λ i lt ne. ground (arith, clear_gates_lem 256 0 h.idt i))

-- From an empty log, the master controller gets its four words of setup and the mask that leaves
-- only the timer on, and the timer gets the divisor of its 1193182 Hz that is nearest below 100 Hz.
hardware_init-ports :
    (irq0_stub address : ℕ) (h : Hardware)
    → h.ports ≡ []
    → let log = (hardware_init irq0_stub address h).ports in
      (written_to 0x21 log ≡ 0xFE ∷ 0x01 ∷ 0x04 ∷ 0x20 ∷ [])
      × (written_to 0xA1 log ≡ 0xFF ∷ 0x01 ∷ 0x02 ∷ 0x28 ∷ [])
      × (written_to 0x40 log ≡ 11931 / 256 ∷ 11931 % 256 ∷ [])
unfolding hardware_init pit_init pic_remap idt_init idt_set_gate
hardware_init-ports irq0_stub address h e = rw e (refl, refl, refl)
