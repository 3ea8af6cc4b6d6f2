-- ===== src/Server/Dump.antt =====
-- internal/server/server.go: what GET /config shows. `string` is the text of a duration.
use trimon.Base.{String, List, map}
use trimon.Base.Int.{ℤ}
use trimon.Types.{ProbeConfig}
use trimon.Config.Schema.{Config}
use trimon.Config.Validate.{entries}

pub record GlobalDump : Type 0 where
  pub interval : String
  pub packet_interval : String
  pub timeout : String
  pub count : ℤ
  pub source_ip : String

pub record ProbeDump : Type 0 where
  pub name : String
  pub type : String
  pub targets : List String
  pub max_resolved_ips : ℤ
  pub source_ip : String
  pub interval : String
  pub packet_interval : String
  pub timeout : String
  pub count : ℤ
  pub labels : List (String × String)

pub record ConfigDump : Type 0 where
  pub global : GlobalDump
  pub probes : List ProbeDump

module _ (string : ℤ → String) where
  unfoldable pub probe_dump : ProbeConfig → ProbeDump
  probe_dump p = record {
    name = p.name;
    type = p.type;
    targets = p.targets;
    max_resolved_ips = p.max_resolved_ips;
    source_ip = p.source_ip;
    interval = string p.interval;
    packet_interval = string p.packet_interval;
    timeout = string p.timeout;
    count = p.count;
    labels = entries p.labels;
  }

  unfoldable pub to_config_dump : Config → ConfigDump
  unfolding probe_dump
  to_config_dump cfg = record {
    global = record {
      interval = string cfg.global.interval;
      packet_interval = string cfg.global.packet_interval;
      timeout = string cfg.global.timeout;
      count = cfg.global.count;
      source_ip = cfg.global.source_ip;
    };
    probes = map probe_dump cfg.probes;
  }
