-- ===== src/Emulation/CompilerConfig.antt =====
-- What a block is compiled with: src/emulation/compiler_config.hpp.
use ji_tboy.Base.{ℕ, Bool}

pub record CompilerConfig : Type 0 where
  pub o_level : ℕ
  pub direct_linking : Bool
