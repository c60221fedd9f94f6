-- ===== src/Agent/Options.antt =====
-- The options of `Agent` (src/flora-agent.cc, include/flora-agent.h).
use flora.Base.{ℕ, Option, none, String, if◌then◌else◌}
use flora.Protocol.{has_monitor_flag}

pub record Options : Type 0 where
  pub uri : String
  pub bufsize : ℕ
  pub reconn_interval : ℕ
  pub flags : ℕ
  pub mon_callback : Option ℕ
  pub beep_interval : ℕ
  pub noresp_timeout : ℕ

-- The keys with the arguments that follow them. The callback of `monitor` is passed when the flags ask
-- for one; a null pointer is `none`.
pub data Config : Type 0 where
  uri : String → Config
  bufsize reconn_interval : ℕ → Config
  monitor : ℕ → Option ℕ → Config
  keepalive : ℕ → ℕ → Config
  other : ℕ → Config

unfoldable pub new_options : Options
new_options = record {
  uri = "";
  bufsize = 0;
  reconn_interval = 10000;
  flags = 0;
  mon_callback = none;
  beep_interval = 50000;
  noresp_timeout = 100000;
}

unfoldable pub config : Config → Options → Options
config (uri s) o = record o { uri = s }
config (bufsize n) o = record o { bufsize = n }
config (reconn_interval n) o = record o { reconn_interval = n }
config (monitor flags cb) o =
    if has_monitor_flag flags
    then record o { flags = flags; mon_callback = cb }
    else record o { flags = flags }
config (keepalive beep noresp) o = record o { beep_interval = beep; noresp_timeout = noresp }
config (other key) o = o
