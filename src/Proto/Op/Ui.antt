-- ===== src/Proto/Op/Ui.antt =====
-- Operations of class UI (src/proto/mod.rs, module op::ui).
use web3_pi_ups_service.Prelude.{ℕ}

abbrev pub button_event : ℕ
button_event = 0x01

abbrev pub set_screen : ℕ
set_screen = 0x02

abbrev pub beep : ℕ
beep = 0x03

abbrev pub display_msg : ℕ
display_msg = 0x04
