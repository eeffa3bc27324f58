-- ===== src/Dalvik/Safety.antt =====
-- Checked code keeps the interpreter inside its registers and inside the file.
use vardoger.Prelude.{ℕ, ◌+◌, ◌%◌, ◌≤◌, ◌<◌, if◌then◌else◌, ◌==◌}
use vardoger.Prelude.Order.{Bytes}
use vardoger.Dex.{u32_mod}
use vardoger.Dex.File.{Code}
use vardoger.Dalvik.Actions.{decode, fetch}
use vardoger.Dalvik.Machine.{Machine}
use vardoger.Dalvik.Outcomes.{Fits}

abbrev pub registers : Code → ℕ
registers code = if code.registers_size == 0 then 1 else code.registers_size

-- At every unit of the code the instruction names registers of the method only, an invoke at most
-- five of them, and the arguments are not more than the registers.
pub record IsChecked (d : Bytes) (code : Code) : Type 0 where
  pub fits :
      (pc : ℕ)
      → pc < code.insns_size
      → Fits
          (λ r. r < registers code)
          (λ count room. count ≤ room)
          (decode (fetch d ((code.insns_off + pc + pc) % u32_mod)))
  pub arguments : code.ins_size ≤ code.registers_size
