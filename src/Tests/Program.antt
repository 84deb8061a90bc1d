-- ===== src/Tests/Program.antt =====
-- The program memory and its protection at concrete machines.
use dspic33e_sim.Prelude.{◌≡◌, refl, true, false, inl}
use dspic33e_sim.Device.State.{Dspic33, blank, blank_nvm}
use dspic33e_sim.Program.{word_at, program}
use dspic33e_sim.Program.Codeguard.{codeguard_configuration, codeguard_write_protected}
use dspic33e_sim.Program.Nvm.{complete_program_nvm, write_configuration}
use dspic33e_sim.Program.Nvm.Clears.{IsWithin, complete_program_nvm-IsWithin}
use dspic33e_sim.Program.Nvm.Protects.{write_configuration_protects}

-- An instruction of the general segment, with an auxiliary segment of high security.
abbrev in_general : Dspic33
in_general = record blank {
  instruction_active = true;
  current_instruction_pc = 0x0200;
  configuration = λ i. 0;
}

-- A double word is to be programmed at 0x300, in a segment without protection.
abbrev programming : Dspic33
programming = record blank {
  configuration = λ i. 0xff;
  nvm = record blank_nvm { control = 0x4001; address = 0x0300; latches = λ i. 0x123456 };
}

complete_program_nvm-IsWithin_example :
    IsWithin
      (word_at (complete_program_nvm programming) (program 0x0180))
      (word_at programming (program 0x0180))
complete_program_nvm-IsWithin_example =
    complete_program_nvm-IsWithin programming (program 0x0180) (inl refl)

-- The same in a segment that is write-protected.
abbrev protected : Dspic33
protected = record programming { configuration = λ i. 0xfe }

-- The protection is to be taken off.
abbrev unprotecting : Dspic33
unprotecting = record protected {
  nvm = record blank_nvm { control = 0x4000; address = 0xf80004; latches = λ i. 0xff };
}

write_configuration_protects_example :
    codeguard_write_protected (codeguard_configuration (write_configuration unprotecting).0 false)
    ≡ true
write_configuration_protects_example = write_configuration_protects unprotecting false refl
