-- ===== src/Guest/Types.antt =====
-- guest_linux.go and boot_linux.go: the records that a microVM's run produces.
use fc_preflight.Prelude.{ℕ, Bool, Option, List}
use fc_preflight.Prelude.Int.{ℤ}
use fc_preflight.Text.{Bytes}
use fc_preflight.Float.{Float64}

-- GuestReport; `virtio_devices` is an association list
pub record GuestReport : Type 0 where
  pub ok : Bool
  pub errors : List Bytes
  pub kernel_version : Bytes
  pub cmdline : Bytes
  pub cpus : ℕ
  pub mem_total_kb : ℤ
  pub clocksource : Bytes
  pub avail_clock : Bytes
  pub virtio_devices : List (Bytes × Bytes)
  pub uptime_at_start : Float64
  pub clock_read_ns : Float64
  pub cpu_hash_mbps : Float64
  pub cpu_hash_mbps_n : Float64
  pub mem_write_mbps : Float64
  pub disk_write_mbps : Float64
  pub disk_read_mbps : Float64
  pub net_echo_rtt_us : Float64
  pub net_throughput : Float64
  pub net_error : Bytes

-- vmOutcome; `guest` is a pointer, `none` where it is nil
pub record VmOutcome : Type 0 where
  pub index : ℕ
  pub boot_ms : Float64
  pub total_ms : Float64
  pub guest : Option GuestReport
  pub err : Bytes
  pub console : List Bytes
  pub exit_code : ℤ
