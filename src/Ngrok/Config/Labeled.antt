-- ===== src/Ngrok/Config/Labeled.antt =====
-- ngrok/src/config/labeled.rs
use Prim.Native.String.{String}
use ngrok_rs.Common.{[], none, some}
use ngrok_rs.Ngrok.Config.{
  CommonOpts, TunnelConfig, default_common, forwards_to_or_default, extra_of,
}
use ngrok_rs.Common.Names.{set}
use ngrok_rs.Ngrok.Proto.{Labels}

pub record LabeledOptions : Type 0 where
  pub common_opts : CommonOpts
  pub labels : Labels

-- `LabeledOptions::default()`
abbrev pub default_options : LabeledOptions
default_options = record { common_opts = default_common; labels = [] }

-- `TunnelConfig for LabeledOptions`
unfoldable pub labeled_config : LabeledOptions → TunnelConfig
unfolding forwards_to_or_default extra_of
labeled_config self = record {
  forwards_to = forwards_to_or_default self.common_opts;
  extra = extra_of self.common_opts;
  proto = "";
  opts = none;
  labels = self.labels;
}

unfoldable pub metadata : LabeledOptions → String → LabeledOptions
metadata self value = record self {
  common_opts = record self.common_opts { metadata = some value };
}

unfoldable pub label : LabeledOptions → String → String → LabeledOptions
unfolding set
label self name value = record self { labels = set self.labels name value }
