-- ===== src/Context.antt =====
-- The context switch of src/asm_ctx.S, on a machine with the registers and instructions that it
-- uses, and the first stack frame that `co_create` of src/coroutine.c lays out for it.
pub mod Switch
pub mod Entry
mod Tests
use c_coroutine.Base.{ℕ, ◌+◌, ◌-◌, ◌%◌, ◌^◌, List, [], ◌∷◌, ◌==◌, if◌then◌else◌}

pub data Reg : Type 0 where
  rsp rbp rbx r12 r13 r14 r15 rdi rsi : Reg

-- A number that tells the registers apart.
abbrev pub index : Reg → ℕ
index rsp = 0
index rbp = 1
index rbx = 2
index r12 = 3
index r13 = 4
index r14 = 5
index r15 = 6
index rdi = 7
index rsi = 8

-- `mem` gives the 64-bit word at each address; every access is to an address that 8 divides.
pub record Cpu : Type 0 where
  pub regs : Reg → ℕ
  pub rip : ℕ
  pub mem : ℕ → ℕ

-- Addresses are 64 bits wide, and wrap around.
abbrev pub add64 : ℕ → ℕ → ℕ
add64 a b = (a + b) % 2 ^ 64

abbrev pub sub64 : ℕ → ℕ → ℕ
sub64 a b = (a + 2 ^ 64 - b) % 2 ^ 64

abbrev pub set_reg : (Reg → ℕ) → Reg → ℕ → Reg → ℕ
set_reg regs r v s = if index s == index r then v else regs s

abbrev pub write : (ℕ → ℕ) → ℕ → ℕ → ℕ → ℕ
write mem a v b = if b == a then v else mem b

-- `store r off base` is `movq r, off(base)`, and `load off base r` is `movq off(base), r`.
pub data Instr : Type 0 where
  store : Reg → ℕ → Reg → Instr
  load : ℕ → Reg → Reg → Instr
  pop : Reg → Instr
  ret : Instr
  jmp : ℕ → Instr

unfoldable pub exec : Instr → Cpu → Cpu
exec (store r off base) m = record m { mem = write m.mem (add64 (m.regs base) off) (m.regs r) }
exec (load off base r) m = record m { regs = set_reg m.regs r (m.mem (add64 (m.regs base) off)) }
exec (pop r) m = record m {
  regs = set_reg (set_reg m.regs rsp (add64 (m.regs rsp) 8)) r (m.mem (m.regs rsp));
}
exec ret m = record m { regs = set_reg m.regs rsp (add64 (m.regs rsp) 8); rip = m.mem (m.regs rsp) }
exec (jmp target) m = record m { rip = target }

unfoldable pub exec_all : List Instr → Cpu → Cpu
unfolding exec
exec_all [] m = m
exec_all (i ∷ code) m = exec_all code (exec i m)

abbrev pub save_code : List Instr
save_code =
    store rsp 0x00 rdi
    ∷ store rbp 0x08 rdi
    ∷ store rbx 0x10 rdi
    ∷ store r12 0x18 rdi
    ∷ store r13 0x20 rdi
    ∷ store r14 0x28 rdi
    ∷ store r15 0x30 rdi
    ∷ []

abbrev pub restore_code : List Instr
restore_code =
    load 0x00 rsi rsp
    ∷ load 0x08 rsi rbp
    ∷ load 0x10 rsi rbx
    ∷ load 0x18 rsi r12
    ∷ load 0x20 rsi r13
    ∷ load 0x28 rsi r14
    ∷ load 0x30 rsi r15
    ∷ ret
    ∷ []

-- `co_ctx_switch(from, to)` from its first instruction to its `ret`.
unfoldable pub co_ctx_switch : Cpu → Cpu
unfolding exec_all
co_ctx_switch m = exec_all restore_code (exec_all save_code m)

-- `co_trampoline`; `co_entry` is the address of that function.
unfoldable pub co_trampoline : (co_entry : ℕ) → Cpu → Cpu
unfolding exec_all
co_trampoline co_entry m = exec_all (pop rdi ∷ jmp co_entry ∷ []) m

-- The seven words of an `AsmCtx`.
pub record AsmCtx : Type 0 where
  pub sp : ℕ
  pub bp : ℕ
  pub bx : ℕ
  pub x12 : ℕ
  pub x13 : ℕ
  pub x14 : ℕ
  pub x15 : ℕ

-- The registers that a call preserves.
abbrev pub preserved : Cpu → AsmCtx
preserved m = record {
  sp = m.regs rsp;
  bp = m.regs rbp;
  bx = m.regs rbx;
  x12 = m.regs r12;
  x13 = m.regs r13;
  x14 = m.regs r14;
  x15 = m.regs r15;
}

-- The `AsmCtx` at an address.
abbrev pub ctx_at : (ℕ → ℕ) → ℕ → AsmCtx
ctx_at mem p = record {
  sp = mem p;
  bp = mem (p + 0x08);
  bx = mem (p + 0x10);
  x12 = mem (p + 0x18);
  x13 = mem (p + 0x20);
  x14 = mem (p + 0x28);
  x15 = mem (p + 0x30);
}
