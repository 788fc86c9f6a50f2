-- ===== src/Workers/Examples.antt =====
-- An account for the tests of internal/workers.
use photoprism.Prelude.{true, false, [], codes, none}
use photoprism.Prelude.Int.{pos}
use photoprism.Workers.Account.{Account, refresh}

abbrev pub cloud : Account
cloud = record {
  id = 1;
  acc_type = codes "webdav";
  acc_error = [];
  acc_errors = 0;
  acc_share = false;
  acc_sync = true;
  retry_limit = pos 1;
  share_path = codes "/";
  share_size = [];
  share_expires = pos 0;
  sync_path = codes "/";
  sync_status = refresh;
  sync_interval = pos 3600;
  sync_date = none;
  sync_upload = true;
  sync_download = true;
  sync_filenames = true;
  sync_raw = false;
}
