-- ===== src/Context/Entry.antt =====
-- The first stack frame that `co_create` builds, and how a new coroutine starts.
use c_coroutine.Base.{ℕ, subst, sym, ◌+◌, ◌-◌, ◌%◌, ◌^◌, ◌≤◌, ◌<◌, ◌≡◌, refl, ap, ◌∙◌, arith}
use c_coroutine.Context.{
  rsp, rdi, rsi, Cpu, add64, sub64, write, exec, co_ctx_switch, co_trampoline, AsmCtx, preserved,
  ctx_at,
}
use c_coroutine.Context.Switch.{Apart, Outside, co_ctx_switch_lem}

-- `stack + stack_size`, rounded down to a multiple of 16.
abbrev pub stack_top : ℕ → ℕ → ℕ
stack_top stack stack_size = let top = add64 stack stack_size in top - top % 16

-- The stack pointer after the two stores `*(--sp) = ...`.
abbrev pub first_sp : ℕ → ℕ → ℕ
first_sp stack stack_size = sub64 (sub64 (stack_top stack stack_size) 8) 8

-- The two words that `co_create` writes.
unfoldable pub push_frame : (stack stack_size co trampoline : ℕ) → (ℕ → ℕ) → ℕ → ℕ
push_frame stack stack_size co trampoline mem =
    let top = stack_top stack stack_size in
    let sp1 = sub64 top 8 in let sp2 = sub64 sp1 8 in write (write mem sp1 co) sp2 trampoline

-- `memset(&co->ctx, 0, ...)` and the stack pointer.
abbrev pub first_ctx : ℕ → ℕ → AsmCtx
first_ctx stack stack_size = record {
  sp = first_sp stack stack_size;
  bp = 0;
  bx = 0;
  x12 = 0;
  x13 = 0;
  x14 = 0;
  x15 = 0;
}

-- If the stack block lies in the address space and has at least 31 bytes, both words that
-- co_create writes lie inside the block.
pub frame_inside :
    (stack stack_size : ℕ)
    → stack + stack_size < 2 ^ 64
    → 31 ≤ stack_size
    → (stack ≤ first_sp stack stack_size) × (first_sp stack stack_size + 16 ≤ stack + stack_size)
frame_inside stack stack_size h room = omega arith

-- On a block at a multiple of 16, at 16 or above and within the address space, of fewer than 16
-- bytes, co_create writes below the block.
pub frame_below :
    (stack stack_size : ℕ)
    → 16 ≤ stack
    → stack % 16 ≡ 0
    → stack + stack_size < 2 ^ 64
    → stack_size < 16
    → first_sp stack stack_size < stack
frame_below stack stack_size lo al h small = omega arith

frame_words :
    (stack stack_size co trampoline : ℕ) (before : ℕ → ℕ)
    → stack + stack_size < 2 ^ 64
    → 31 ≤ stack_size
    → (push_frame stack stack_size co trampoline before (first_sp stack stack_size) ≡ trampoline)
      × (push_frame stack stack_size co trampoline before (first_sp stack stack_size + 8) ≡ co)
      × (add64 (first_sp stack stack_size) 8 ≡ first_sp stack stack_size + 8)
      × (add64 (first_sp stack stack_size + 8) 8 ≡ stack_top stack stack_size)
unfolding push_frame
frame_words stack stack_size co trampoline before space room =
    (ground arith, ground arith, omega arith, omega arith)

-- The machine `m` is about to switch to a new coroutine: its frame and its context are as
-- `co_create` left them, over memory that was `before`, and apart from the outgoing context.
pub record IsNew (m : Cpu) (stack stack_size co trampoline : ℕ) (before : ℕ → ℕ) : Type 0 where
  pub space : stack + stack_size < 2 ^ 64
  pub room : 31 ≤ stack_size
  pub frame : m.mem ≡ push_frame stack stack_size co trampoline before
  pub ctx : ctx_at m.mem (m.regs rsi) ≡ first_ctx stack stack_size
  pub apart : Apart (m.regs rdi) (m.regs rsi)
  pub below : Outside (m.regs rdi) (first_sp stack stack_size)
  pub above : Outside (m.regs rdi) (first_sp stack stack_size + 8)

module _ {m : Cpu} {stack stack_size co trampoline : ℕ} {before : ℕ → ℕ}
    (new : IsNew m stack stack_size co trampoline before) (co_entry : ℕ) where
  -- On a machine that is about to switch to a new coroutine as co_create left it, co_ctx_switch
  -- returns to the trampoline, and the trampoline enters co_entry with the coroutine in rdi, the
  -- stack pointer at the rounded top of the stack, and the other preserved registers zero.
  pub first_switch :
      let e = co_trampoline co_entry (co_ctx_switch m) in
      ((co_ctx_switch m).rip ≡ trampoline)
      × (e.rip ≡ co_entry)
      × (e.regs rdi ≡ co)
      × (preserved e ≡ record (first_ctx stack stack_size) { sp = stack_top stack stack_size })
  unfolding co_trampoline exec
  first_switch =
      let sp = first_sp stack stack_size in
      let (low, high, up, upup) =
        frame_words stack stack_size co trampoline before new.space new.room in
      let sp0 : m.mem (m.regs rsi) ≡ sp = ap (λ (c : AsmCtx). c.sp) new.ctx in
      let sw = co_ctx_switch_lem m new.apart (subst (Outside (m.regs rdi)) (sym sp0) new.below) in
      let m' = co_ctx_switch m in
      let restored : preserved m' ≡ record (first_ctx stack stack_size) { sp = add64 sp 8 } =
        sw.restores ∙ ap (λ (c : AsmCtx). record c { sp = add64 c.sp 8 }) new.ctx in
      let sp1 : m'.regs rsp ≡ sp + 8 = ap (λ (c : AsmCtx). c.sp) restored ∙ up in
      let popped : m'.mem (m'.regs rsp) ≡ co =
        ap m'.mem sp1 ∙ sw.spares (sp + 8) new.above ∙ ap (λ f. f (sp + 8)) new.frame ∙ high in
      let top : add64 (m'.regs rsp) 8 ≡ stack_top stack stack_size =
        ap (λ x. add64 x 8) sp1 ∙ upup in
      (
        sw.returns ∙ ap m.mem sp0 ∙ ap (λ f. f sp) new.frame ∙ low,
        refl,
        popped,
        λ i. record {
          sp = top i;
          bp = (restored i).bp;
          bx = (restored i).bx;
          x12 = (restored i).x12;
          x13 = (restored i).x13;
          x14 = (restored i).x14;
          x15 = (restored i).x15;
        },
      )

  -- On a machine that is about to switch to a new coroutine as co_create left it, rsp + 8 leaves
  -- the remainder 8 by 16 where co_entry starts.
  pub entry_misaligned : ((co_trampoline co_entry (co_ctx_switch m)).regs rsp + 8) % 16 ≡ 8
  entry_misaligned = let top = ap (λ (c : AsmCtx). c.sp) first_switch.3 in omega (arith, top)
