-- ===== src/Storage/Targets/Runs.antt =====
-- A store with one target and its job.
use lite_nvr.Common.{string_eq, ◌≡◌, refl, true, [], ◌∷◌}
use lite_nvr.Common.Dict.{remove, keep_where}
use lite_nvr.Storage.Transport.{pair_eq, TransportJob, done}
use lite_nvr.Storage.Targets.{Store, TransportTarget, delete}

abbrev copied : TransportJob
copied = record {
  id = "job";
  segment_id = "a";
  target_id = "ftp";
  status = done;
  attempts = 1;
  remote_key = "front/a.mp4";
  file_size = 1;
  error = "";
  create_time = 10;
  update_time = 10;
}

abbrev ftp : TransportTarget
ftp = record {
  id = "ftp";
  name = "archive";
  kind = "ftp";
  enabled = true;
  config = "";
  remark = "";
  create_time = "2026-01-01";
  update_time = "2026-01-01";
}

abbrev one_job : Store
one_job = record { targets = ("ftp", ftp) ∷ []; jobs = (("a", "ftp"), copied) ∷ [] }

deletes_both : delete "ftp" one_job ≡ record { targets = []; jobs = [] }
unfolding delete remove keep_where
deletes_both = refl
