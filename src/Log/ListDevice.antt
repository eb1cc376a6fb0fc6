-- ===== src/Log/ListDevice.antt =====
-- A log file that is a list of bytes: what the calls on a log file do where no write is short.
use db_smw.Common.{ℕ, zero, suc, ◌≡◌, refl, ap, ◌∙◌, true, List, [], ◌∷◌, ◌++◌, length, arith}
use db_smw.Log.Device.{LogDevice, IsLogDevice}

-- the `n` bytes from `o` on, or as many as there are
abbrev pub stretch : ℕ → ℕ → List ℕ → List ℕ
stretch (suc o) n (b ∷ bs) = stretch o n bs
stretch zero (suc n) (b ∷ bs) = b ∷ stretch zero n bs
stretch o n bs = []

abbrev pub list_device : LogDevice (List ℕ)
list_device = record {
  get_file_size = length;
  read = λ f o n. stretch o n f;
  append = λ f bs. (true, f ++ bs);
}

stretch-append : (a b c : List ℕ) → stretch (length a) (length b) (a ++ (b ++ c)) ≡ b
stretch-append [] [] [] = refl
stretch-append [] [] (x ∷ c) = refl
stretch-append [] (x ∷ b) c = ap (λ l. x ∷ l) (stretch-append [] b c)
stretch-append (x ∷ a) b c = stretch-append a b c

pub list_device-IsLogDevice : IsLogDevice list_device (λ f. f)
list_device-IsLogDevice = record {
  get_file_size_lem = λ f. refl;
  read_lem = λ f a b c e. ap (stretch (length a) (length b)) e ∙ stretch-append a b c;
  append_all = λ f bs e. refl;
  append_some = λ f bs e. ground (arith, e);
}
