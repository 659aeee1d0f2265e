-- ===== src/Peripheral/Acia/Linked.antt =====
-- The port's interrupt flag and its source on the CPU's line agree.
use text.Mathlib.Text.{◌==◌ as str_eq}
use chippy.Prelude.{
  ℕ, ◌≡◌, refl, sym, ◌∙◌, Bool, true, false, not, ◌&&◌, ◌++◌, ◌==◌, and_not8, drop, List, [], ◌∷◌,
  String, if◌then◌else◌, Bool-cases, inl, inr, arith,
}
use chippy.Cpu.State.{Lines}
use chippy.Cpu.Lines.{has_source, is_empty, assert_irq_source, clear_irq_source}
use chippy.Cpu.Lines.Wired.{has_source-add, has_source-delete, str_eq_refl}
use chippy.Peripheral.Acia.{
  Acia, Port, acia_irq_source, offset, rx_irq_enabled, clear_irq, raise_rx, read_data, read,
  write_command, write, receive, new_acia, set_irq,
}

-- The wired port holds its source while its flag is set; the other sources are those of `start`.
pub record IsLinked (start : Lines) (p : Port) : Type 0 where
  pub wired : p.0.wired ≡ true
  pub source : has_source p.1.irq_sources acia_irq_source ≡ p.0.irq_flag
  pub others :
      (u : String)
      → str_eq acia_irq_source u ≡ false
      → has_source p.1.irq_sources u ≡ has_source start.irq_sources u

module _ (start : Lines) where
  IsLinked-if :
      (b : Bool) {p q : Port}
      → IsLinked start p
      → IsLinked start q
      → IsLinked start (if b then p else q)
  IsLinked-if true h k = h
  IsLinked-if false h k = k

  IsLinked-if_read :
      (b : Bool) (r s : ℕ × Port)
      → IsLinked start r.1
      → IsLinked start s.1
      → IsLinked start (if b then r else s).1
  IsLinked-if_read true r s h k = h
  IsLinked-if_read false r s h k = k

  clear_irq-IsLinked :
      (a : Acia) (l : Lines) → IsLinked start (a, l) → IsLinked start (clear_irq (a, l))
  unfolding clear_irq clear_irq_source
  clear_irq-IsLinked a l h = elim (Bool-cases a.irq_flag) [
    | inl set ↦ record {
      wired = ground (arith, h.wired, set);
      source = ground (
        arith,
        h.wired,
        set,
        has_source-delete l.irq_sources acia_irq_source acia_irq_source,
        str_eq_refl acia_irq_source,
      );
      others = λ u other. ground (
        arith,
        h.wired,
        set,
        other,
        has_source-delete l.irq_sources acia_irq_source u,
        h.others u,
      );
    }
    | inr clear ↦ record {
      wired = ground (arith, h.wired, clear);
      source = ground (arith, h.wired, clear, h.source);
      others = λ u other. ground (arith, clear, other, h.others u);
    }
  ]

  raise_rx-IsLinked :
      (a : Acia) (l : Lines) → IsLinked start (a, l) → IsLinked start (raise_rx (a, l))
  unfolding raise_rx assert_irq_source
  raise_rx-IsLinked a l h = record {
    wired = h.wired;
    source = ground (
      arith,
      h.wired,
      has_source-add l.irq_sources acia_irq_source acia_irq_source,
      str_eq_refl acia_irq_source,
    );
    others = λ u other.
        ground (arith, h.wired, other, has_source-add l.irq_sources acia_irq_source u, h.others u);
  }

  -- The queues and registers do not matter.
  change :
      {a : Acia} {l : Lines} (a' : Acia)
      → IsLinked start (a, l)
      → a'.wired ≡ a.wired
      → a'.irq_flag ≡ a.irq_flag
      → IsLinked start (a', l)
  change a' h w f = record { wired = w ∙ h.wired; source = h.source ∙ sym f; others = h.others }

  read_data-IsLinked :
      (a : Acia) (l : Lines) → IsLinked start (a, l) → IsLinked start (read_data (a, l)).1
  unfolding read_data
  read_data-IsLinked a l h =
      let popped : Acia = record a { rxq = drop 1 a.rxq } in
      let k : IsLinked start (popped, l) = change popped h refl refl in
      IsLinked-if (is_empty popped.rxq) (clear_irq-IsLinked popped l k) k

  read-IsLinked :
      (addr : ℕ) (a : Acia) (l : Lines)
      → IsLinked start (a, l)
      → IsLinked start (read addr (a, l)).1
  unfolding read
  read-IsLinked addr a l h =
      let o : ℕ = offset a addr in
      IsLinked-if_read (o == 0) _ _ (read_data-IsLinked a l h) (
        IsLinked-if_read (o == 1) _ _ (clear_irq-IsLinked a l h)
          (IsLinked-if_read (o == 2) _ _ h (IsLinked-if_read (o == 3) _ _ h h)))

  write_command-IsLinked :
      (v : ℕ) (a : Acia) (l : Lines)
      → IsLinked start (a, l)
      → IsLinked start (write_command v (a, l))
  unfolding write_command
  write_command-IsLinked v a l h =
      let a' : Acia = record a { command = v } in
      let k : IsLinked start (a', l) = change a' h refl refl in
      IsLinked-if (rx_irq_enabled v && not (is_empty a.rxq)) (raise_rx-IsLinked a' l k)
        (IsLinked-if (not (rx_irq_enabled v)) (clear_irq-IsLinked a' l k) k)

  write-IsLinked :
      (addr v : ℕ) (a : Acia) (l : Lines)
      → IsLinked start (a, l)
      → IsLinked start (write addr v (a, l))
  unfolding write
  write-IsLinked addr v a l h =
      let o : ℕ = offset a addr in
      let cleared : Acia = record a { command = and_not8 a.command 0x1F } in
      IsLinked-if (o == 0) (change _ h refl refl) (
        IsLinked-if (o == 1) (clear_irq-IsLinked cleared l (change cleared h refl refl)) (
          IsLinked-if (o == 2) (write_command-IsLinked v a l h)
            (IsLinked-if (o == 3) (change _ h refl refl) h)))

  receive-IsLinked :
      (b : ℕ) (a : Acia) (l : Lines) → IsLinked start (a, l) → IsLinked start (receive b (a, l))
  unfolding receive
  receive-IsLinked b a l h =
      let a' : Acia = record a { rxq = a.rxq ++ b ∷ [] } in
      let k : IsLinked start (a', l) = change a' h refl refl in
      IsLinked-if (rx_irq_enabled a.command) (raise_rx-IsLinked a' l k) k

-- What the CPU and the host do with the port.
pub data PortEvent : Type 0 where
  cpu_read : ℕ → PortEvent
  cpu_write : ℕ → ℕ → PortEvent
  host_byte : ℕ → PortEvent

unfoldable pub port_event : PortEvent → Port → Port
port_event (cpu_read addr) p = (read addr p).1
port_event (cpu_write addr v) p = write addr v p
port_event (host_byte b) p = receive b p

unfoldable pub port_events : List PortEvent → Port → Port
unfolding port_event
port_events [] p = p
port_events (e ∷ es) p = port_events es (port_event e p)

port_event-IsLinked :
    (start : Lines) (e : PortEvent) (a : Acia) (l : Lines)
    → IsLinked start (a, l)
    → IsLinked start (port_event e (a, l))
unfolding port_event
port_event-IsLinked start (cpu_read addr) a l h = read-IsLinked start addr a l h
port_event-IsLinked start (cpu_write addr v) a l h = write-IsLinked start addr v a l h
port_event-IsLinked start (host_byte b) a l h = receive-IsLinked start b a l h

port_events-keep :
    (start : Lines) (es : List PortEvent) (p : Port)
    → IsLinked start p
    → IsLinked start (port_events es p)
unfolding port_events
port_events-keep start [] p h = h
port_events-keep start (e ∷ es) (a, l) h =
    port_events-keep start es (port_event e (a, l)) (port_event-IsLinked start e a l h)

-- From a fresh port with its sink wired, on lines that do not hold its source, any sequence of CPU
-- reads, CPU writes and received bytes leaves the CPU's line holding the port's source exactly when
-- the port's interrupt flag is set, and every other source as it was.
pub port_events-IsLinked :
    (base : ℕ) (l : Lines) (es : List PortEvent)
    → has_source l.irq_sources acia_irq_source ≡ false
    → IsLinked l (port_events es (set_irq (new_acia base), l))
unfolding new_acia set_irq
port_events-IsLinked base l es h =
    port_events-keep l es (set_irq (new_acia base), l)
      (record { wired = refl; source = h; others = λ u other. refl })
