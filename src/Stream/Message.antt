-- ===== src/Stream/Message.antt =====
-- aether/safe_stream: safe_stream_data_message.h, safe_stream_config.h, and the codes that the
-- sender's results carry.
use aether_client_cpp.Prelude.{ℕ, Bool, List}

pub record DataMessage : Type 0 where
  pub reset : Bool
  pub repeat_count : ℕ
  pub delta_offset : ℕ
  pub bytes : List ℕ

-- Times and durations are numbers of one unit.
pub record SafeStreamConfig : Type 0 where
  pub window_size : ℕ
  pub max_packet_size : ℕ
  pub max_repeat_count : ℕ
  pub wait_ack_timeout : ℕ
  pub send_ack_timeout : ℕ
  pub send_repeat_timeout : ℕ

-- `Result<T, int>`
pub data CodeResult {ℓ} (A : Type ℓ) : Type ℓ where
  done : A → CodeResult A
  failed : ℕ → CodeResult A

-- `WriteAction::Status` as the sender's callback gets it.
pub data WriteStatus : Type 0 where
  success fail stop : WriteStatus
