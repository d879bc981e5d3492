-- ===== src/Mongo/Reference.antt =====
-- A driver that meets the laws, and that every driver which meets them equals: what holds of
-- programs over it holds over each.
use ai_distributed_workflow.Base.{◌≡◌, refl, sym, subst, keep, first, count}
use ai_distributed_workflow.Base.Result.{settle}
use ai_distributed_workflow.Mongo.Driver.{
  Mongo, IsMongo, limited, change_first, change_all, changed, one_of, store, store_all,
}

abbrev pub reference : Mongo
reference = record {
  find = λ p xs. keep p xs;
  find_limited = λ p n xs. limited n (keep p xs);
  find_one = λ p xs. first p xs;
  update_one = λ p f xs. (change_first p f xs, one_of (first p xs));
  update_many = λ p f xs. (change_all p f xs, count p xs);
  find_one_and_update = λ p f xs. (change_first p f xs, changed f (first p xs));
  insert = λ clash x xs. store clash x xs;
  insert_many = λ clash ys xs. store_all clash ys xs;
  transaction = λ body s. settle s (body s);
}

pub reference-IsMongo : IsMongo reference
reference-IsMongo = record {
  find_lem = λ p xs. refl;
  find_limited_lem = λ p n xs. refl;
  find_one_lem = λ p xs. refl;
  update_one_lem = λ p f xs. refl;
  update_many_lem = λ p f xs. refl;
  find_one_and_update_lem = λ p f xs. refl;
  insert_lem = λ clash x xs. refl;
  insert_many_lem = λ clash ys xs. refl;
  transaction_lem = λ body s. refl;
}

pub IsMongo-eq : (m : Mongo) → IsMongo m → m ≡ reference
IsMongo-eq m laws = λ i. record {
  find = λ p xs. laws.find_lem p xs i;
  find_limited = λ p n xs. laws.find_limited_lem p n xs i;
  find_one = λ p xs. laws.find_one_lem p xs i;
  update_one = λ p f xs. laws.update_one_lem p f xs i;
  update_many = λ p f xs. laws.update_many_lem p f xs i;
  find_one_and_update = λ p f xs. laws.find_one_and_update_lem p f xs i;
  insert = λ clash x xs. laws.insert_lem clash x xs i;
  insert_many = λ clash ys xs. laws.insert_many_lem clash ys xs i;
  transaction = λ body s. laws.transaction_lem body s i;
}

-- To prove a statement for every driver, prove it for `reference`.
pub for_every_driver {ℓ} : (P : Mongo → Type ℓ) → P reference → (m : Mongo) → IsMongo m → P m
for_every_driver P h m laws = subst P (sym (IsMongo-eq m laws)) h
