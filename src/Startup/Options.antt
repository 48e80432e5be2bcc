-- ===== src/Startup/Options.antt =====
-- Flags of pkg/controller/main.go.
use sealed_secrets.Base.{ℕ, String, Bool}

-- Durations are nanoseconds. The rate of queries of the client, a floating-point number, is passed on only.
pub record Flags : Type 0 where
  pub key_prefix : String
  pub key_size : ℕ
  pub valid_for : ℕ
  pub my_cn : String
  pub key_renew_period : ℕ
  pub key_order_priority : String
  pub accept_v1_data : Bool
  pub key_cutoff_time : String
  pub namespace_all : Bool
  pub additional_namespaces : String
  pub label_selector : String
  pub rate_limit_per_second : ℕ
  pub rate_limit_burst : ℕ
  pub old_gc_behavior : Bool
  pub update_status : Bool
  pub skip_recreate : Bool
  pub log_info_to_stdout : Bool
  pub log_level : String
  pub log_format : String
  pub private_key_annotations : String
  pub private_key_labels : String
  pub max_retries : ℕ
  pub watch_for_secrets : Bool
  pub kube_client_burst : ℕ
