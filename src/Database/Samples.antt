-- ===== src/Database/Samples.antt =====
-- Rows for the tests: a user with a month's tariff, and a server.
use fredoomeaxima.Common.{true, false, [], ◌∷◌, none, some}
use fredoomeaxima.Text.{codes}
use fredoomeaxima.Database.{
  Db, User, UserRole, UserStatus, Tariff, Subscription, SubscriptionStatus, SubscriptionSource,
  Payment, PaymentStatus, Country, Server, ServerStatus, ProvisionStatus,
}

abbrev pub ada : User
ada = record {
  id = 1;
  email = "ada@example.com";
  password_hash = 11;
  role = UserRole.user;
  status = UserStatus.active;
}

abbrev pub bob : User
bob = record {
  id = 2;
  email = "bob@example.com";
  password_hash = 12;
  role = UserRole.user;
  status = UserStatus.active;
}

abbrev pub month : Tariff
month = record {
  id = 7;
  name = "Month";
  price_cents = 49900;
  currency = "RUB";
  duration_days = 30;
  device_limit = 2;
  is_active = true;
  is_public = true;
  is_archived = false;
  allowed_countries = [];
}

-- Ada's subscription, that runs until 5000.
abbrev pub running : Subscription
running = record {
  id = 20;
  user_id = 1;
  tariff_id = 7;
  status = SubscriptionStatus.active;
  source = SubscriptionSource.payment;
  starts_at = 0;
  ends_at = 5000;
}

-- A payment of Ada's for the month.
abbrev pub invoice : PaymentStatus → Payment
invoice status = record {
  id = 30;
  user_id = 1;
  tariff_id = some 7;
  amount_cents = 49900;
  currency = "RUB";
  status = status;
  provider = "mock";
  provider_txn_id = some 99;
  paid_at = none;
}

abbrev pub finland : Country
finland = record { id = 3; code = "FI"; name = "Finland" }

abbrev pub helsinki : ServerStatus → Server
helsinki status = record {
  id = 5;
  name = "hel-1";
  country_id = 3;
  ip = codes "9.9.9.9";
  ssh_user = "root";
  ssh_port = 22;
  wg_endpoint_port = 51820;
  agent_url = codes "http://9.9.9.9:8443";
  agent_token_enc = some 501;
  server_public_key = none;
  max_peers = 250;
  status = status;
  install_token = none;
  registered_at = some 100;
  last_heartbeat_at = some 200;
  monthly_cost_cents = 500;
  cost_currency = "EUR";
  provider = none;
  next_renewal_at = none;
  provision_status = ProvisionStatus.none;
  provision_log = [];
}

-- The tables, with one payment and one server.
abbrev pub sample : PaymentStatus → Server → Db
sample paid server = record {
  users = ada ∷ bob ∷ [];
  tariffs = month ∷ [];
  subscriptions = running ∷ [];
  payments = invoice paid ∷ [];
  countries = finland ∷ [];
  servers = server ∷ [];
  peers = [];
  health_checks = [];
  refresh_tokens = [];
  route_groups = [];
  route_versions = [];
  admin_actions = [];
}

abbrev pub empty_db : Db
empty_db = record {
  users = [];
  tariffs = [];
  subscriptions = [];
  payments = [];
  countries = [];
  servers = [];
  peers = [];
  health_checks = [];
  refresh_tokens = [];
  route_groups = [];
  route_versions = [];
  admin_actions = [];
}
