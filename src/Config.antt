-- ===== src/Config.antt =====
-- The configuration of a gateway: the data classes of src/dnp3_gateway/backend/config_client.py.
pub mod Values
pub mod Parse
pub mod Fetch
use horstmann_dnp3_gateway.Base.{String, Option, Bool, List}
use horstmann_dnp3_gateway.Base.Number.{ℤ, Float}

pub record DeviceConfig : Type 0 where
  pub code : String
  pub name : String
  pub ip_address : String
  pub dnp3_address : ℤ
  pub dnp3_tcp_port : Option ℤ
  pub master_address : Option ℤ
  pub ip_endpoint_type : String
  pub master_ip_port : Option ℤ
  pub poll_interval_sec : ℤ
  pub timeout_ms : ℤ
  pub retry_count : ℤ
  pub signal_profile : String

pub record SignalConfig : Type 0 where
  pub key : String
  pub label : String
  pub unit : Option String
  pub source : String
  pub dnp3_class : String
  pub data_type : String
  pub dnp3_object_group : ℤ
  pub dnp3_index : ℤ
  pub scale : Float
  pub offset : Float
  pub supports_alarm : Bool

pub record GatewayConfig : Type 0 where
  pub gateway_code : String
  pub gateway_name : String
  pub batch_interval_sec : ℤ
  pub max_devices : ℤ
  pub is_active : Bool
  pub config_version : String
  pub devices : List DeviceConfig
  pub signals : List SignalConfig
  pub refresh_nonce : ℤ
