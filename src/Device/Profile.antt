-- ===== src/Device/Profile.antt =====
-- src/device/dspic33ep_mu/data.c: the five devices, their limits and bonded pins.
use dspic33e_sim.Prelude.{ℕ, List, [], ◌∷◌, get_or, leb, if◌then◌else◌}

pub data Device : Type 0 where
  dev_256mu806 dev_256mu810 dev_256mu814 dev_512mu810 dev_512mu814 : Device

-- `Dspic33epMuProfile` without the printed name and the counts of pins.
pub record Profile : Type 0 where
  pub program_limit : ℕ
  pub data_limit : ℕ
  pub y_data_base : ℕ
  pub dma_ram_base : ℕ
  pub device_id : ℕ
  pub pwm_generator_count : ℕ

abbrev pub profile : Device → Profile
profile dev_256mu806 = record {
  program_limit = 0x2ac00;
  data_limit = 0x8000;
  y_data_base = 0x5000;
  dma_ram_base = 0x7000;
  device_id = 0x18614000;
  pwm_generator_count = 4;
}
profile dev_256mu810 = record {
  program_limit = 0x2ac00;
  data_limit = 0x8000;
  y_data_base = 0x5000;
  dma_ram_base = 0x7000;
  device_id = 0x18624000;
  pwm_generator_count = 6;
}
profile dev_256mu814 = record {
  program_limit = 0x2ac00;
  data_limit = 0x8000;
  y_data_base = 0x5000;
  dma_ram_base = 0x7000;
  device_id = 0x18634000;
  pwm_generator_count = 7;
}
profile dev_512mu810 = record {
  program_limit = 0x55800;
  data_limit = 0xe000;
  y_data_base = 0x9000;
  dma_ram_base = 0xd000;
  device_id = 0x18724000;
  pwm_generator_count = 6;
}
profile dev_512mu814 = record {
  program_limit = 0x55800;
  data_limit = 0xe000;
  y_data_base = 0x9000;
  dma_ram_base = 0xd000;
  device_id = 0x18734000;
  pwm_generator_count = 7;
}

abbrev gpio_masks_806 : List ℕ
gpio_masks_806 = 0 ∷ 0xffff ∷ 0xf000 ∷ 0x0fff ∷ 0x00ff ∷ 0x003b ∷ 0x03cc ∷ 0 ∷ 0 ∷ 0 ∷ []

abbrev gpio_masks_810 : List ℕ
gpio_masks_810 = 0xc6ff ∷ 0xffff ∷ 0xf01e ∷ 0xffff ∷ 0x03ff ∷ 0x313f ∷ 0xf3cf ∷ 0 ∷ 0 ∷ 0 ∷ []

abbrev gpio_masks_814 : List ℕ
gpio_masks_814 =
    0xc6ff ∷ 0xffff ∷ 0xf01e ∷ 0xffff ∷ 0x03ff ∷ 0x313f ∷ 0xf3cf ∷ 0xffff ∷ 0xffff ∷ 0xf803 ∷ []

abbrev gpio_masks : Device → List ℕ
gpio_masks dev_256mu806 = gpio_masks_806
gpio_masks dev_256mu810 = gpio_masks_810
gpio_masks dev_512mu810 = gpio_masks_810
gpio_masks dev_256mu814 = gpio_masks_814
gpio_masks dev_512mu814 = gpio_masks_814

unfoldable pub gpio_port_mask : Device → ℕ → ℕ
gpio_port_mask device port = if leb 10 port then 0 else get_or (gpio_masks device) port 0
