-- ===== src/Context/Switch.antt =====
-- What `co_ctx_switch` saves, what it restores, and that a coroutine that is switched away from
-- and back to goes on as if a call had returned.
use c_coroutine.Base.{ℕ, subst, sym, ◌+◌, ◌^◌, ◌≤◌, ◌<◌, ◌≡◌, ◌⊎◌, refl, ap, ◌∙◌, arith}
use c_coroutine.Context.{
  rsp, rdi, rsi, Cpu, add64, exec, ret, exec_all, save_code, restore_code, co_ctx_switch, AsmCtx,
  preserved, ctx_at,
}

-- The words of the context at `p`: seven, within the address space.
abbrev pub ctx_size : ℕ
ctx_size = 56

abbrev pub InSpace : ℕ → Type 0
InSpace p = p + ctx_size < 2 ^ 64

-- Memory after the saving half.
save-mem :
    (m : Cpu) → InSpace (m.regs rdi) → ctx_at (exec_all save_code m).mem (m.regs rdi) ≡ preserved m
unfolding exec_all
save-mem m h = ground arith

-- `b` is no word of the context at `p`.
abbrev pub Outside : ℕ → ℕ → Type 0
Outside p b = (b < p) ⊎ (p + ctx_size ≤ b)

save-frame :
    (m : Cpu) (b : ℕ)
    → InSpace (m.regs rdi)
    → Outside (m.regs rdi) b
    → (exec_all save_code m).mem b ≡ m.mem b
unfolding exec_all
save-frame m b h o = ground arith

save-regs : (m : Cpu) → (exec_all save_code m).regs ≡ m.regs
unfolding exec_all
save-regs m = refl

restore-mem : (m : Cpu) → (exec_all restore_code m).mem ≡ m.mem
unfolding exec_all
restore-mem m = refl

restore-preserved :
    (m : Cpu)
    → InSpace (m.regs rsi)
    → preserved (exec_all restore_code m)
      ≡ record (ctx_at m.mem (m.regs rsi)) { sp = add64 (m.mem (m.regs rsi)) 8 }
unfolding exec_all
restore-preserved m h = ground arith

restore-rip :
    (m : Cpu) → InSpace (m.regs rsi) → (exec_all restore_code m).rip ≡ m.mem (m.mem (m.regs rsi))
unfolding exec_all
restore-rip m h = ground arith

-- A context whose words are unchanged is unchanged.
ctx_at_congr :
    (f g : ℕ → ℕ) (p : ℕ)
    → ((b : ℕ) → p ≤ b → b < p + ctx_size → f b ≡ g b)
    → ctx_at f p ≡ ctx_at g p
ctx_at_congr f g p h = λ i. record {
  sp = h p (omega arith) (omega arith) i;
  bp = h (p + 0x08) (omega arith) (omega arith) i;
  bx = h (p + 0x10) (omega arith) (omega arith) i;
  x12 = h (p + 0x18) (omega arith) (omega arith) i;
  x13 = h (p + 0x20) (omega arith) (omega arith) i;
  x14 = h (p + 0x28) (omega arith) (omega arith) i;
  x15 = h (p + 0x30) (omega arith) (omega arith) i;
}

-- The two contexts lie in memory and do not overlap.
abbrev pub Apart : ℕ → ℕ → Type 0
Apart p q = InSpace p × InSpace q × ((p + ctx_size ≤ q) ⊎ (q + ctx_size ≤ p))

-- What a switch does: the outgoing registers are saved, the incoming ones restored, control
-- continues at the incoming return address with that address popped, and no other memory changes.
pub record Switches (m m' : Cpu) : Type 0 where
  pub saves : ctx_at m'.mem (m.regs rdi) ≡ preserved m
  pub restores :
      preserved m' ≡ record (ctx_at m.mem (m.regs rsi)) { sp = add64 (m.mem (m.regs rsi)) 8 }
  pub returns : m'.rip ≡ m.mem (m.mem (m.regs rsi))
  pub spares : (b : ℕ) → Outside (m.regs rdi) b → m'.mem b ≡ m.mem b

-- If the outgoing and the incoming context are apart and the incoming stack slot is outside the
-- outgoing context, co_ctx_switch saves the seven preserved registers in the outgoing context,
-- restores those of the incoming one with its return address popped and jumped to, and changes no
-- memory outside the outgoing context.
pub co_ctx_switch_lem :
    (m : Cpu)
    → Apart (m.regs rdi) (m.regs rsi)
    → Outside (m.regs rdi) (m.mem (m.regs rsi))
    → Switches m (co_ctx_switch m)
unfolding co_ctx_switch
co_ctx_switch_lem m (hf, ht, apart) slot =
    let s = exec_all save_code m in
    let to = m.regs rsi in
    let same : ctx_at s.mem to ≡ ctx_at m.mem to =
      ctx_at_congr s.mem m.mem to (λ b lo hi. save-frame m b hf (omega arith)) in
    record {
      saves = save-mem m hf;
      restores = restore-preserved s ht ∙ ap (λ (c : AsmCtx). record c { sp = add64 c.sp 8 }) same;
      returns =
          restore-rip s ht ∙ ap (λ (c : AsmCtx). s.mem c.sp) same ∙ save-frame m (m.mem to) hf slot;
      spares = λ b o. save-frame m b hf o;
    }

-- Let m switch from the context in rdi to that in rsi, the two being apart and the incoming stack
-- slot outside the outgoing context. If a machine n later switches back to m's context, from a
-- context apart from it and from m's stack slot, and m's context and the return address on m's
-- stack are as m's switch left them, then the preserved registers and the instruction pointer
-- after n's switch are those that a return in m gives.
pub switch-switch :
    (m n : Cpu)
    → Apart (m.regs rdi) (m.regs rsi)
    → Outside (m.regs rdi) (m.mem (m.regs rsi))
    → n.regs rsi ≡ m.regs rdi
    → Apart (n.regs rdi) (n.regs rsi)
    → Outside (n.regs rdi) (m.regs rsp)
    → ctx_at n.mem (m.regs rdi) ≡ ctx_at (co_ctx_switch m).mem (m.regs rdi)
    → n.mem (m.regs rsp) ≡ m.mem (m.regs rsp)
    → (preserved (co_ctx_switch n) ≡ preserved (exec ret m))
      × ((co_ctx_switch n).rip ≡ (exec ret m).rip)
unfolding exec
switch-switch m n hm slot back hn slot' kept address =
    let a = m.regs rdi in
    let away = co_ctx_switch_lem m hm slot in
    let stored : ctx_at n.mem (n.regs rsi) ≡ preserved m =
      ap (ctx_at n.mem) back ∙ kept ∙ away.saves in
    let at_rsp : n.mem (n.regs rsi) ≡ m.regs rsp = ap (λ (c : AsmCtx). c.sp) stored in
    let again = co_ctx_switch_lem n hn (subst (Outside (n.regs rdi)) (sym at_rsp) slot') in
    (
      again.restores ∙ ap (λ (c : AsmCtx). record c { sp = add64 c.sp 8 }) stored,
      again.returns ∙ ap n.mem at_rsp ∙ address,
    )
