-- ===== src/Context/Tests.antt =====
-- A switch between two contexts, and the start of a new coroutine, at concrete addresses.
use c_coroutine.Base.{ℕ, ◌+◌, ◌%◌, ◌≤◌, ◌<◌, ◌≡◌, inl, inr, refl, arith, ◌==◌, if◌then◌else◌}
use c_coroutine.Context.{
  Reg, rsp, rdi, rsi, Cpu, exec, ret, co_ctx_switch, co_trampoline, preserved,
}
use c_coroutine.Context.Switch.{Switches, co_ctx_switch_lem, switch-switch}
use c_coroutine.Context.Entry.{
  push_frame, first_ctx, stack_top, first_sp, IsNew, first_switch, entry_misaligned, frame_inside,
  frame_below,
}

-- The scheduler's context is at 1000, the coroutine's at 2000, and its stack at 4096.
abbrev regs_of : (sp to from : ℕ) → Reg → ℕ
regs_of sp to from rsp = sp
regs_of sp to from rdi = from
regs_of sp to from rsi = to
regs_of sp to from r = 7

-- The context at 2000 holds the stack pointer of a new coroutine, and zeros.
abbrev before : ℕ → ℕ
before b = if b == 2000 then first_sp 4096 64 else 0

abbrev main_machine : Cpu
main_machine = record {
  regs = regs_of 8000 2000 1000;
  rip = 1;
  mem = push_frame 4096 64 2000 77 before;
}

main-IsNew : IsNew main_machine 4096 64 2000 77 before
unfolding push_frame
main-IsNew = record {
  space = omega arith;
  room = omega arith;
  frame = refl;
  ctx = refl;
  apart = (omega arith, omega arith, inl (omega arith));
  below = inr (omega arith);
  above = inr (omega arith);
}

first_switch_example :
    let e = co_trampoline 99 (co_ctx_switch main_machine) in
    ((co_ctx_switch main_machine).rip ≡ 77)
    × (e.rip ≡ 99)
    × (e.regs rdi ≡ 2000)
    × (preserved e ≡ record (first_ctx 4096 64) { sp = stack_top 4096 64 })
first_switch_example = first_switch main-IsNew 99

entry_misaligned_example : ((co_trampoline 99 (co_ctx_switch main_machine)).regs rsp + 8) % 16 ≡ 8
entry_misaligned_example = entry_misaligned main-IsNew 99

frame_inside_test : (4096 ≤ first_sp 4096 31) × (first_sp 4096 31 + 16 ≤ 4096 + 31)
frame_inside_test = frame_inside 4096 31 (omega arith) (omega arith)

frame_below_test : first_sp 4096 8 < 4096
frame_below_test = frame_below 4096 8 (omega arith) refl (omega arith) (omega arith)

co_ctx_switch_lem_example : Switches main_machine (co_ctx_switch main_machine)
unfolding push_frame
co_ctx_switch_lem_example =
    co_ctx_switch_lem main_machine (omega arith, omega arith, inl (omega arith)) (inr (omega arith))

-- The coroutine switches back from the stack pointer 4200, the scheduler's stack being untouched.
abbrev back_machine : Cpu
back_machine = record {
  regs = regs_of 4200 1000 2000;
  rip = 5;
  mem = (co_ctx_switch main_machine).mem;
}

switch-switch_example :
    (preserved (co_ctx_switch back_machine) ≡ preserved (exec ret main_machine))
    × ((co_ctx_switch back_machine).rip ≡ (exec ret main_machine).rip)
unfolding push_frame co_ctx_switch
switch-switch_example =
    switch-switch main_machine back_machine (omega arith, omega arith, inl (omega arith))
      (inr (omega arith)) refl (omega arith, omega arith, inr (omega arith)) (inr (omega arith))
      refl refl
