-- ===== src/Frontend/Options.antt =====
-- frontend/options.go: the options of the parsers.
use mochi.Base.{ℕ, Bool, ◌==◌, if◌then◌else◌}

pub record ParseOptions : Type 0 where
  pub allow_ip_spoofing : Bool
  pub filter_private_ips : Bool
  pub max_num_want : ℕ
  pub default_num_want : ℕ
  pub max_scrape_info_hashes : ℕ

abbrev pub default_max_num_want : ℕ
default_max_num_want = 100

abbrev pub default_default_num_want : ℕ
default_default_num_want = 50

abbrev pub default_max_scrape_info_hashes : ℕ
default_max_scrape_info_hashes = 50

-- The numbers are unsigned, so `<= 0` is `== 0`.
unfoldable pub validate : ParseOptions → ParseOptions
validate op = record op {
  max_num_want = if op.max_num_want == 0 then default_max_num_want else op.max_num_want;
  default_num_want =
      if op.default_num_want == 0 then default_default_num_want else op.default_num_want;
  max_scrape_info_hashes =
      if op.max_scrape_info_hashes == 0
      then default_max_scrape_info_hashes
      else op.max_scrape_info_hashes;
}
