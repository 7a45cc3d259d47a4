-- ===== src/Inverter/Unit/Device.antt =====
-- The scan of a device that answers: from the registers of the device, over the line, to the pool.
use loop_charger_inverter.Prelude.{
  ℕ, ◌+◌, ◌-◌, ◌^◌, ◌≤◌, ◌<◌, ◌≡◌, ◌≢◌, refl, ap, ◌∙◌, ◌⊎◌, inl, inr, true, false, some, List, [],
  ◌∷◌, ◌++◌, arith, length, All, get_elem?, subst, drop, length-drop, ◌&&◌, length-append,
  Bool-cases, ltb, leb,
}
use loop_charger_inverter.Prelude.Int.{is_neg}
use loop_charger_inverter.Modbus.Frame.{max_read_registers}
use loop_charger_inverter.Modbus.Serial.Delivery.{Delivers}
use loop_charger_inverter.Modbus.Transaction.{Ctx, Exchange, client_ok}
use loop_charger_inverter.Modbus.Transaction.Laws.{answer, WritesAll}
use loop_charger_inverter.Modbus.Client.{read_request, read_holding_registers}
use loop_charger_inverter.Modbus.Client.Registers.{IsWords}
use loop_charger_inverter.Modbus.Client.Laws.{read_reply, read_holding_registers_ok}
use loop_charger_inverter.DeviceMap.{
  Mapping, Profile, RegisterPool, internal_pool_size, device_map_read_to_pool,
}
use loop_charger_inverter.DeviceMap.Find.{IsWellFormed}
use loop_charger_inverter.DeviceMap.Pool.{IsInjective, read_to_pool_mapped, read_to_pool_other}
use loop_charger_inverter.Inverter.Unit.{and_then, read_segment}
use loop_charger_inverter.Inverter.Unit.Segments.{run_segments}
use loop_charger_inverter.Inverter.Unit.Slave.{
  registers, length-registers, registers-IsWords, get_or-registers, Answers,
}

-- The failures counted after these requests, if they succeed.
abbrev pub fails_left : List (ℕ × ℕ) → ℕ → ℕ
fails_left [] fails = fails
fails_left (g ∷ segs) fails = 0

fails_left-zero : (segs : List (ℕ × ℕ)) → fails_left segs 0 ≡ 0
fails_left-zero [] = refl
fails_left-zero (g ∷ segs) = refl

-- A register address that a request names.
abbrev pub Named : ℕ → List (ℕ × ℕ) → Type 0
Named a [] = ⊥
Named a (g ∷ segs) = ((g.0 ≤ a) × (a < g.0 + g.1)) ⊎ Named a segs

Named-cases : (a : ℕ) (segs : List (ℕ × ℕ)) → Named a segs ⊎ (¬ Named a segs)
Named-cases a [] = inr (λ e. e)
Named-cases a (g ∷ segs) = elim (Named-cases a segs) [
  | inl here ↦ inl (inr here)
  | inr other ↦ elim (Bool-cases (leb g.0 a && ltb a (g.0 + g.1))) [
    | inl e ↦ inl (inl (ground arith))
    | inr e ↦ inr (λ h. elim h [ inl x ↦ ground arith | inr y ↦ other y ])
  ]
]

-- The pool after the registers of `named` addresses have been read from a device: each has its
-- value in its slot, and the slots of no such register are as before.
pub record Filled (table : List Mapping) (d : ℕ → ℕ) (named : ℕ → Type 0)
    (before after : RegisterPool) : Type 0 where
  pub filled :
      (k : ℕ) (m : Mapping)
      → get_elem? table k ≡ some m
      → named m.device_address
      → after m.pool_address ≡ d m.device_address
  pub kept :
      (p : ℕ)
      → ((k : ℕ) (m : Mapping)
          → get_elem? table k ≡ some m
          → named m.device_address
          → m.pool_address ≢ p)
      → after p ≡ before p

module _ {W : Type 0} (bus : W → ℕ → List ℕ → W × Exchange) (profile : Profile) (ctx : Ctx)
    (device : W → ℕ → ℕ) (table : List Mapping) (wf : IsWellFormed profile table)
    (inj : IsInjective table)
    (inside : (k : ℕ) (m : Mapping)
      → get_elem? table k ≡ some m
      → m.pool_address < internal_pool_size)
    (opened : is_neg ctx.fd ≡ false) (unit_byte : ctx.cfg.unit_id < 256)
    (answers : Answers bus ctx device) where
  -- A read of the scan that has gone well.
  pub record ReadsWell (named : ℕ → Type 0) (before after : W × RegisterPool × ℕ × List ℕ)
      : Type 0 where
    pub same_device : device after.0 ≡ device before.0
    pub room : length after.3 ≡ max_read_registers
    pub pool_filled : Filled table (device before.0) named before.1 after.1

  read_sized :
      (w : W) (addr qty : ℕ) (regs out : List ℕ)
      → length regs ≡ qty
      → IsWords regs
      → 0 < qty
      → qty ≤ max_read_registers
      → qty ≤ length out
      → WritesAll bus w ctx (read_request ctx.cfg.unit_id addr qty)
      → Delivers
          (answer bus w ctx (read_request ctx.cfg.unit_id addr qty)).1.events
          (read_reply ctx.cfg.unit_id regs)
      → read_holding_registers bus w (some ctx) addr qty (some out) ≡ (
        (answer bus w ctx (read_request ctx.cfg.unit_id addr qty)).0,
        client_ok,
        some (regs ++ drop qty out),
      )
  read_sized w addr qty regs out size words positive small fits =
      subst
        (λ n.
          WritesAll bus w ctx (read_request ctx.cfg.unit_id addr n)
          → Delivers (answer bus w ctx (read_request ctx.cfg.unit_id addr n)).1.events
              (read_reply ctx.cfg.unit_id regs)
          → read_holding_registers bus w (some ctx) addr n (some out) ≡ (
            (answer bus w ctx (read_request ctx.cfg.unit_id addr n)).0,
            client_ok,
            some (regs ++ drop n out),
          ))
        size
        (read_holding_registers_ok bus w ctx addr regs out opened unit_byte
          (omega arith, omega arith) words (omega arith))

  read_segment-ReadsWell :
      (s : W × RegisterPool × ℕ × List ℕ) (start count : ℕ)
      → length s.3 ≡ max_read_registers
      → 0 < count
      → count ≤ max_read_registers
      → start + count ≤ 2 ^ 16
      → (s' : W × RegisterPool × ℕ × List ℕ) × (read_segment bus profile ctx s start count
          ≡ (s', true))
        × (s'.2 ≡ 0)
        × ReadsWell (λ a. (start ≤ a) × (a < start + count)) s s'
  unfolding read_segment
  read_segment-ReadsWell s start count room positive small in_range = (
    (w', device_map_read_to_pool (some profile) (some buf) start count s.1, 0, buf),
    rw (read_segment, ok) refl,
    refl,
    record {
      same_device = answers.keeps s.0 start count positive small in_range;
      room = omega (
        arith,
        length-append regs (drop count s.3),
        length-registers (device s.0) start count,
        length-drop count s.3,
      );
      pool_filled = record {
        filled = λ k m at h.
            read_to_pool_mapped wf buf start count in_range s.1 inj k m at (inside k m at)
              (m.device_address - start) (omega arith) (omega arith)
            ∙ get_or-registers (device s.0) start count (m.device_address - start) _ (omega arith)
            ∙ ap (device s.0) (omega arith);
        kept = λ p h.
            read_to_pool_other wf buf start count in_range s.1 p
              (λ k m at lo hi. h k m at (lo, hi));
      };
    },
  )
    where
      regs : List ℕ
      regs = registers (device s.0) start count

      buf : List ℕ
      buf = regs ++ drop count s.3

      w' : W
      w' = (answer bus s.0 ctx (read_request ctx.cfg.unit_id start count)).0

      size : length regs ≡ count
      size = length-registers (device s.0) start count

      ok :
          read_holding_registers bus s.0 (some ctx) start count (some s.3)
          ≡ (w', client_ok, some buf)
      ok =
          read_sized s.0 start count regs s.3 size
            (registers-IsWords (device s.0) (answers.words s.0) start count) positive small
            (omega arith) (answers.takes_request s.0 start count positive small in_range)
            (answers.replies s.0 start count positive small in_range)

  -- What the requests of a scan read, one after the other.
  pub run_segments-ReadsWell :
      (segs : List (ℕ × ℕ)) (s : W × RegisterPool × ℕ × List ℕ)
      → length s.3 ≡ max_read_registers
      → All (λ g. (0 < g.1) × (g.1 ≤ max_read_registers) × (g.0 + g.1 ≤ 2 ^ 16)) segs
      → (s' : W × RegisterPool × ℕ × List ℕ) × (run_segments (read_segment bus profile ctx) segs s
          ≡ (s', true))
        × (s'.2 ≡ fails_left segs s.2)
        × ReadsWell (λ a. Named a segs) s s'
  run_segments-ReadsWell [] s room h = (
    s,
    refl,
    refl,
    record {
      same_device = refl;
      room = room;
      pool_filled = record { filled = λ k m at n. elim n [ ]; kept = λ p n. refl };
    },
  )
  run_segments-ReadsWell (g ∷ segs) s room h =
      let (s1, e1, z1, r1) = read_segment-ReadsWell s g.0 g.1 room h.0.0 h.0.1 h.0.2 in
      let (s2, e2, z2, r2) = run_segments-ReadsWell segs s1 r1.room h.1 in
      (
        s2,
        ap (λ r. and_then r (λ t. run_segments (read_segment bus profile ctx) segs t)) e1 ∙ e2,
        z2 ∙ (ap (fails_left segs) z1 ∙ fails_left-zero segs),
        record {
          same_device = r2.same_device ∙ r1.same_device;
          room = r2.room;
          pool_filled = record {
            filled = λ k m at n. elim (Named-cases m.device_address segs) [
              | inl later ↦
                  r2.pool_filled.filled k m at later
                  ∙ ap (λ (d : ℕ → ℕ). d m.device_address) r1.same_device
              | inr earlier ↦
                  r2.pool_filled.kept m.pool_address
                    (λ j o there named same. earlier (rw (← inj j k o m there at same) named))
                  ∙ r1.pool_filled.filled k m at (elim n [ inl x ↦ x | inr y ↦ absurd (earlier y) ])
            ];
            kept = λ p n.
                r2.pool_filled.kept p (λ k m at named. n k m at (inr named))
                ∙ r1.pool_filled.kept p (λ k m at named. n k m at (inl named));
          };
        },
      )
