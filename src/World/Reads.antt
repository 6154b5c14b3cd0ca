-- ===== src/World/Reads.antt =====
-- Which outside calls only look: registry requests, credentials, listings and inspections.
use openwatch.Base.{Bool}
use openwatch.Base.Text.{Text}
use openwatch.World.{Call, Request, World}
use openwatch.World.Keeps.{Admits}
use openwatch.World.Makes.{Calls, Admits-call}

pub record AllowsReads (Q : Call → Type 0) : Type 0 where
  pub http : (r : Request) → Q (Call.http_request r)
  pub home_dir : Q Call.home_dir
  pub read_file : (p : Text) → Q (Call.read_file p)
  pub run_helper : (h s : Text) → Q (Call.run_helper h s)
  pub aws_config : Q Call.aws_config
  pub ecr_token : Q Call.ecr_token
  pub hostname : Q Call.hostname
  pub list : (b : Bool) → Q (Call.container_list b)
  pub inspect : (id : Text) → Q (Call.container_inspect id)
  pub image : (id : Text) → Q (Call.image_inspect id)

-- Looking keeps `I`.
abbrev pub Looks : (World → Type 0) → Type 0
Looks I = AllowsReads (λ c. Admits I c)

pub looks : {Q : Call → Type 0} → AllowsReads Q → Looks (Calls Q)
looks q = record {
  http = λ r. Admits-call _ (q.http r);
  home_dir = Admits-call _ q.home_dir;
  read_file = λ p. Admits-call _ (q.read_file p);
  run_helper = λ h s. Admits-call _ (q.run_helper h s);
  aws_config = Admits-call _ q.aws_config;
  ecr_token = Admits-call _ q.ecr_token;
  hostname = Admits-call _ q.hostname;
  list = λ b. Admits-call _ (q.list b);
  inspect = λ id. Admits-call _ (q.inspect id);
  image = λ id. Admits-call _ (q.image id);
}
