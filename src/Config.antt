-- ===== src/Config.antt =====
-- internal/config/config.go. `getenv` is os.Getenv, which answers the empty text for a variable that
-- is not set.
use ocpphal_go.Prelude.{
  ℕ, String, [], ◌∷◌, Bool, false, not, ◌&&◌, ◌||◌, none, some, List, ℤ, pos, atoi, is_positive,
  is_blank, is_word, trim_space, codes, eqb, if◌then◌else◌, ◌<>◌,
}

pub data Level : Type 0 where
  level_debug : Level
  level_info : Level
  level_warn : Level
  level_error : Level

pub record Config : Type 0 where
  pub rest_host : String
  pub rest_port : String
  pub ocpp_listen_port : ℤ
  pub ocpp_listen_path : String
  pub api_key : String
  pub api_auth_key : String
  pub log_level : Level
  pub database_url : String
  pub db_name : String
  pub db_user : String
  pub db_password : String
  pub db_host : String
  pub db_port : ℤ
  pub db_ssl_mode : String
  pub main_cms_start_txn_hook_url : String
  pub single_session_start_txn_hook_url : String
  pub main_cms_completed_txn_url : String
  pub single_session_completed_txn_url : String
  pub charger_data_url : String
  pub charger_data_cache_ttl_seconds : ℤ

-- The trimmed text, or the fallback where nothing is left.
abbrev pub or_fallback : String → String → String
or_fallback String.[] fallback = fallback
or_fallback value fallback = value

abbrev pub int_or : String → ℤ → ℤ
int_or String.[] fallback = fallback
int_or raw fallback = elim (atoi raw) [ none ↦ fallback | some value ↦ value ]

unfoldable pub parse_log_level : String → Level
parse_log_level value =
    if is_word value "debug"
    then level_debug
    else if is_word value "warn" || is_word value "warning"
    then level_warn
    else if is_word value "error"
    then level_error
    else level_info

module _ (getenv : String → String) where
  unfoldable pub env : String → String → String
  env key fallback = or_fallback (trim_space (getenv key)) fallback

  unfoldable pub env_int : String → ℤ → ℤ
  env_int key fallback = int_or (trim_space (getenv key)) fallback

  unfoldable pub load : Config
  unfolding env env_int parse_log_level
  load = record {
    rest_host = env "F_SERVER_HOST" "127.0.0.1";
    rest_port = env "F_SERVER_PORT" "18080";
    ocpp_listen_port = env_int "OCPP_LISTEN_PORT" (pos 18081);
    ocpp_listen_path = env "OCPP_LISTEN_PATH" "/{ws}";
    api_key = getenv "API_KEY";
    api_auth_key = getenv "APIAUTHKEY";
    log_level = parse_log_level (env "LOG_LEVEL" "info");
    database_url = getenv "DATABASE_URL";
    db_name = getenv "DB_NAME";
    db_user = getenv "DB_USER";
    db_password = getenv "DB_PASSWORD";
    db_host = env "DB_HOST" "127.0.0.1";
    db_port = env_int "DB_PORT" (pos 5432);
    db_ssl_mode = env "DB_SSLMODE" "disable";
    main_cms_start_txn_hook_url =
        env "MAIN_CMS_START_TXN_HOOK_URL"
          "https://be.cms.ocpp.transev.site/users/checkstartresponse";
    single_session_start_txn_hook_url = getenv "SINGLE_SESSION_START_TXN_HOOK_URL";
    main_cms_completed_txn_url =
        env "MAIN_CMS_COMPLETED_TXN_URL" "https://be.cms.ocpp.transev.site/users/deductcalculate";
    single_session_completed_txn_url = getenv "SINGLE_SESSION_COMPLETED_TXN_URL";
    charger_data_url = getenv "APICHARGERDATA";
    charger_data_cache_ttl_seconds = env_int "CHARGER_DATA_CACHE_TTL_SECONDS" (pos 7200);
  }

unfoldable needs_brackets : List ℕ → Bool
needs_brackets [] = false
needs_brackets (c ∷ s) = eqb c 58 || eqb c 37 || needs_brackets s

-- net.JoinHostPort puts a host with a colon or a percent sign in brackets.
unfoldable pub rest_listen_addr : Config → String
unfolding needs_brackets
rest_listen_addr c =
    if needs_brackets (codes c.rest_host)
    then "[" <> c.rest_host <> "]:" <> c.rest_port
    else c.rest_host <> ":" <> c.rest_port

unfoldable pub has_database : Config → Bool
has_database c =
    not (is_blank c.database_url)
    || not (is_blank c.db_name)
      && not (is_blank c.db_user)
      && not (is_blank c.db_host)
      && is_positive c.db_port
