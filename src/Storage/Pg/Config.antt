-- ===== src/Storage/Pg/Config.antt =====
-- storage/pg/storage.go: the configuration. strings.ToUpper, which follows the Unicode tables, is a parameter.
use mochi.Base.{◌==◌, if◌then◌else◌, length}
use mochi.Base.Bytes.{Bytes}
use mochi.Base.Text.{trim_space}
use mochi.Result.{Error, other_error, Result, ok, err, ◌>>=◌, codes}

abbrev pub err_connection_string_not_provided : Error
err_connection_string_not_provided = other_error "database connection string not provided"

-- The text of the source also has the name of the parameter.
abbrev pub err_required_parameter_not_set : Error
err_required_parameter_not_set = other_error "required parameter not provided"

abbrev pub default_ping_query : Bytes
default_ping_query = codes "SELECT 0"

pub record PeerQueryConf : Type 0 where
  pub add_query : Bytes
  pub del_query : Bytes
  pub graduate_query : Bytes
  pub count_query : Bytes
  pub count_seeders_column : Bytes
  pub count_leechers_column : Bytes
  pub by_info_hash_clause : Bytes

pub record AnnounceQueryConf : Type 0 where
  pub query : Bytes
  pub peer_id_column : Bytes
  pub address_column : Bytes
  pub port_column : Bytes

pub record DataQueryConf : Type 0 where
  pub add_query : Bytes
  pub get_query : Bytes
  pub del_query : Bytes

pub record DownloadQueryConf : Type 0 where
  pub get_query : Bytes
  pub increment_query : Bytes

pub record Config : Type 0 where
  pub connection_string : Bytes
  pub ping_query : Bytes
  pub peer : PeerQueryConf
  pub announce : AnnounceQueryConf
  pub downloads : DownloadQueryConf
  pub values : DataQueryConf
  pub gc_query : Bytes
  pub info_hash_count_query : Bytes

-- `fn`: the trimmed text, which must not be empty
unfoldable pub required : Error → Bytes → Result Bytes
required e p = let q = trim_space p in if length q == 0 then err e else ok q

-- Config.Validate; on an error the source returns the given configuration too, which no caller reads.
unfoldable pub validate : (Bytes → Bytes) → Config → Result Config
validate upper cfg = do
  connection_string ← required err_connection_string_not_provided cfg.connection_string
  add_query ← required err_required_parameter_not_set cfg.peer.add_query
  del_query ← required err_required_parameter_not_set cfg.peer.del_query
  graduate_query ← required err_required_parameter_not_set cfg.peer.graduate_query
  count_query ← required err_required_parameter_not_set cfg.peer.count_query
  seeders ← required err_required_parameter_not_set cfg.peer.count_seeders_column
  leechers ← required err_required_parameter_not_set cfg.peer.count_leechers_column
  by_info_hash ← required err_required_parameter_not_set cfg.peer.by_info_hash_clause
  announce_query ← required err_required_parameter_not_set cfg.announce.query
  peer_id ← required err_required_parameter_not_set cfg.announce.peer_id_column
  address ← required err_required_parameter_not_set cfg.announce.address_column
  port ← required err_required_parameter_not_set cfg.announce.port_column
  data_add ← required err_required_parameter_not_set cfg.values.add_query
  data_get ← required err_required_parameter_not_set cfg.values.get_query
  data_del ← required err_required_parameter_not_set cfg.values.del_query
  ok (record cfg {
    connection_string = connection_string;
    ping_query = if length cfg.ping_query == 0 then default_ping_query else cfg.ping_query;
    peer = record {
      add_query = add_query;
      del_query = del_query;
      graduate_query = graduate_query;
      count_query = count_query;
      count_seeders_column = upper seeders;
      count_leechers_column = upper leechers;
      by_info_hash_clause = by_info_hash;
    };
    announce = record {
      query = announce_query;
      peer_id_column = upper peer_id;
      address_column = upper address;
      port_column = upper port;
    };
    values = record { add_query = data_add; get_query = data_get; del_query = data_del };
  })
