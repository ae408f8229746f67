-- ===== src/Cache/Toy.antt =====
-- A cache to run on, with no one else there.
use fanxiangdiguijiexi.Prelude.{[], codes}
use fanxiangdiguijiexi.Cache.Manager.{Cache, Others}

abbrev pub empty_cache : Cache
empty_cache = record {
  repository = record { rows = []; generation = 7; audit = [] };
  memory = [];
  generation_owner = codes "owner-1";
}

abbrev pub undisturbed : Others
undisturbed = record {
  before_row = λ repo. repo;
  before_check = λ repo. repo;
  before_update = λ repo. repo;
}
